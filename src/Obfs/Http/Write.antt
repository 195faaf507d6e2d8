-- ===== src/Obfs/Http/Write.antt =====
-- crates/clash-proxynet/src/obfs.rs: what poll_write puts on the wire is a request and the bytes.
use rust_clash.Common.{
  ℕ, ◌%◌, ◌<◌, ◌≤◌, ◌≡◌, refl, sym, ◌∙◌, ap, List, [], ◌∷◌, ◌++◌, arith, length, take, drop,
  take-append-drop, take_all, length-drop, leb, Bool-cases, inl, inr, contains, nat_eq,
  if◌then◌else◌, false,
}
use mathlib.Core.List.{append_assoc, append-nil}
use rust_clash.Text.{Str, codes, is_empty}
use rust_clash.Utf8.{as_bytes}
use rust_clash.Decimal.{to_string, to_string-IsDigit, digits_without}
use rust_clash.Io.Writer.Law.{IsHonest, Takes}
use rust_clash.Obfs.Http.{HttpWrite, Draws, build_http_request, offer, took, writer}
use rust_clash.Obfs.Http.Header.{EndsAt, ends_text, ends_line, ends_here}

path_plain :
    (path : Str)
    → contains 13 (as_bytes path) ≡ false
    → contains 13 (as_bytes (if is_empty path then codes "/" else path)) ≡ false
unfolding is_empty contains as_bytes
path_plain [] h = refl
path_plain (c ∷ path) h = h

module _ (draws : Draws) (path host : Str) where
  abbrev pub request : List ℕ → List ℕ
  request = build_http_request draws path host

  length-request : (body : List ℕ) → 0 < length (request body)
  unfolding build_http_request as_bytes
  length-request body = omega arith

  -- `whole` is the buffer of the first call.
  abbrev pub Account : List ℕ → HttpWrite → List ℕ → List ℕ → List ℕ → Type 0
  Account whole HttpWrite.first out taken rest = (out ≡ []) × (taken ≡ []) × (rest ≡ whole)
  Account whole (HttpWrite.flush cur) out taken rest =
      (0 < length cur) × (out ++ cur ≡ request whole) × (taken ≡ []) × (rest ≡ whole)
  Account whole HttpWrite.pass out taken rest =
      (more : List ℕ) × (out ≡ request whole ++ more) × (taken ≡ whole ++ more)

  unfoldable pub cost : HttpWrite → List ℕ → ℕ
  cost HttpWrite.first rest = length (request rest)
  cost (HttpWrite.flush cur) rest = length cur
  cost HttpWrite.pass rest = 0

  flush-Takes :
      (whole out cur taken rest : List ℕ) (n : ℕ)
      → 0 < length rest
      → Account whole (HttpWrite.flush cur) out taken rest
      → 0 < n
      → n ≤ length cur
      → Takes
          (Account whole)
          cost
          (out ++ take n cur)
          taken
          rest
          (length cur)
          (took draws path host (HttpWrite.flush cur) rest n)
  unfolding took cost
  flush-Takes whole out cur taken rest n r (p, e, t, same) g few =
      elim (Bool-cases (leb (length cur) n)) [
        | inl h ↦
            let all = take_all cur n (ground arith) in
            let every = take_all rest (length rest) refl in
            rw (h, all, t, every)
              (r, ([], e ∙ sym (append-nil (request whole)), same ∙ sym (append-nil whole)))
        | inr h ↦ rw h (
          (
            ground (arith, length-drop n cur),
            append_assoc out (take n cur) (drop n cur)
                ∙ ap (λ c. out ++ c) (take-append-drop n cur)
                ∙ e,
            t,
            same,
          ),
          omega (arith, length-drop n cur),
        )
      ]

  pub writer-IsHonest : (whole : List ℕ) → IsHonest (Account whole) cost (writer draws path host)
  unfolding offer took cost
  writer-IsHonest whole HttpWrite.first out taken rest p (o, t, same) =
      let some_request = length-request rest in
      let a : Account whole (HttpWrite.flush (request rest)) out taken rest =
        (some_request, ap (λ r. r ++ request rest) o ∙ ap request same, t, same) in
      (some_request, a, λ n g few. flush-Takes whole out (request rest) taken rest n p a g few)
  writer-IsHonest whole (HttpWrite.flush cur) out taken rest p a =
      (a.0, a, λ n g few. flush-Takes whole out cur taken rest n p a g few)
  writer-IsHonest whole HttpWrite.pass out taken rest p (more, o, t) = (
    p,
    (more, o, t),
    λ n g few. (
      g,
      (
        more ++ take n rest,
        ap (λ w. w ++ take n rest) o ∙ append_assoc (request whole) more (take n rest),
        ap (λ w. w ++ take n rest) t ∙ append_assoc whole more (take n rest),
      ),
    ),
  )

  -- The header of a request ends in front of its body, when neither path nor host nor key has a
  -- carriage return.
  pub request_ends :
      (body : List ℕ)
      → contains 13 (as_bytes path) ≡ false
      → contains 13 (as_bytes host) ≡ false
      → contains 13 (as_bytes draws.ws) ≡ false
      → EndsAt (request body) body
  unfolding build_http_request contains
  request_ends body p h w =
      let number : (n : ℕ) → contains 13 (as_bytes (to_string n)) ≡ false =
        λ n. digits_without 13 (to_string n) (omega arith) (to_string-IsDigit n) in
      ends_text (codes "GET ") _ body refl (
        ends_text (as_bytes (if is_empty path then codes "/" else path)) _ body (path_plain path p)
          (ends_text (codes " HTTP/1.1") _ body refl (
            ends_line b'H' (codes "ost: ") _ body refl (
              ends_text (as_bytes host) _ body h (
                ends_line b'U' (codes "ser-Agent: curl/7.") _ body refl (
                  ends_text (as_bytes (to_string (draws.major % 51))) _ body
                    (number (draws.major % 51))
                    (ends_text (codes ".") _ body refl (
                      ends_text (as_bytes (to_string (draws.minor % 2))) _ body
                        (number (draws.minor % 2))
                        (ends_line b'U' (codes "pgrade: websocket") _ body refl (
                          ends_line b'C' (codes "onnection: Upgrade") _ body refl (
                            ends_line b'S' (codes "ec-WebSocket-Key: ") _ body refl (
                              ends_text (as_bytes draws.ws) _ body w (
                                ends_line b'C' (codes "ontent-Length: ") _ body refl (
                                  ends_text (as_bytes (to_string (length body))) _ body
                                    (number (length body)) (ends_here body)))))))))))))))

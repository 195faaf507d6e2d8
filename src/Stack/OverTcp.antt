-- ===== src/Stack/OverTcp.antt =====
-- crates/clash-tun/src/stack.rs, lines 396 to 430: DNS over TCP, on the bytes that the client sends
-- until it closes its side; each `read_exact` that finds too few of them ends the service. The
-- answers are the bytes written. A write that fails is not modelled.
use rust_clash.Common.{
  ℕ, zero, suc, ◌≤◌, ◌<◌, ◌≡◌, refl, sym, ◌∙◌, ◌/◌, ◌%◌, ap, ◌||◌, Option, none, some, List, [],
  ◌∷◌, ◌++◌, arith, ltb, if◌then◌else◌, length, length-append, take, drop, at, be16, from_be16,
  from_be16-be16, All, Option-cases, inl, inr, length-drop, take-append_left, drop-append_left, ◌^◌,
}
use mathlib.Core.List.{append_assoc}
use rust_clash.Text.{Str}
use rust_clash.Dns.{parse_dns_query}
use rust_clash.Stack.{Stack, answer_query}

-- A message behind its length.
abbrev pub frame : List ℕ → List ℕ
frame msg = be16 (length msg) ++ msg

module _ (idna : Str → Option Str) where
  -- The loop, for a number of rounds.
  unfoldable pub serve_dns : ℕ → List ℕ → Stack → List ℕ × Stack
  unfolding answer_query
  serve_dns zero stream s = ([], s)
  serve_dns (suc n) stream s =
      let len = from_be16 (at stream 0) (at stream 1) in
      let msg = take len (drop 2 stream) in
      let asked : Option (ℕ × Str × ℕ) =
        if ltb (length stream) 2
        then none
        else if ltb len 12 || ltb 4096 len
        then none
        else if ltb (length (drop 2 stream)) len
        then none
        else parse_dns_query msg in
      elim asked [
        | none ↦ ([], s)
        | some query ↦
            let (answer, s') = answer_query idna query s in
            let (more, s'') = serve_dns n (drop len (drop 2 stream)) s' in
            (frame answer ++ more, s'')
      ]

  -- Each round reads two bytes and more.
  unfoldable pub handle_dns_tcp : List ℕ → Stack → List ℕ × Stack
  unfolding serve_dns
  handle_dns_tcp stream s = serve_dns (length stream) stream s

  -- The query that a round finds in front of the stream.
  abbrev asked_of : List ℕ → Option (ℕ × Str × ℕ)
  asked_of stream =
      let len = from_be16 (at stream 0) (at stream 1) in
      if ltb (length stream) 2
      then none
      else if ltb len 12 || ltb 4096 len
      then none
      else if ltb (length (drop 2 stream)) len
      then none
      else parse_dns_query (take len (drop 2 stream))

  asked_long : (stream : List ℕ) (q : ℕ × Str × ℕ) → asked_of stream ≡ some q → 2 ≤ length stream
  asked_long stream q e = ground arith

  -- More rounds than bytes change nothing.
  enough_rounds :
      (n m : ℕ) (stream : List ℕ) (s : Stack)
      → length stream ≤ n
      → length stream ≤ m
      → serve_dns n stream s ≡ serve_dns m stream s
  unfolding serve_dns
  enough_rounds zero zero stream s h k = refl
  enough_rounds zero (suc m) stream s h k = elim (Option-cases (asked_of stream)) [
    | inl e ↦ rw (e, serve_dns) refl
    | inr (q, e) ↦ absurd (omega (arith, asked_long stream q e))
  ]
  enough_rounds (suc n) zero stream s h k = elim (Option-cases (asked_of stream)) [
    | inl e ↦ rw (e, serve_dns) refl
    | inr (q, e) ↦ absurd (omega (arith, asked_long stream q e))
  ]
  enough_rounds (suc n) (suc m) stream s h k = elim (Option-cases (asked_of stream)) [
    | inl e ↦ rw (e, serve_dns) refl
    | inr (q, e) ↦
        let len = from_be16 (at stream 0) (at stream 1) in
        let rest = drop len (drop 2 stream) in
        let size = length-drop len (drop 2 stream) in
        let two = length-drop 2 stream in
        let long = asked_long stream q e in
        rw (e, serve_dns)
          (rw
            (enough_rounds n m rest (answer_query idna q s).1 (omega (arith, size, two, long))
              (omega (arith, size, two, long)))
            refl)
  ]

  -- A message that a client may send, and the query in it.
  abbrev pub Asks : List ℕ × (ℕ × Str × ℕ) → Type 0
  Asks (msg, query) = (12 ≤ length msg) × (length msg ≤ 4096) × (parse_dns_query msg ≡ some query)

  -- The frames of the messages, and the answers one after the other.
  unfoldable pub frames : List (List ℕ × (ℕ × Str × ℕ)) → List ℕ
  frames [] = []
  frames ((msg, query) ∷ asks) = frame msg ++ frames asks

  unfoldable pub answers : List (List ℕ × (ℕ × Str × ℕ)) → Stack → List ℕ × Stack
  answers [] s = ([], s)
  answers ((msg, query) ∷ asks) s =
      let (answer, s') = answer_query idna query s in
      let (more, s'') = answers asks s' in (frame answer ++ more, s'')

  asked_of-frame :
      (msg rest : List ℕ) (query : ℕ × Str × ℕ)
      → Asks (msg, query)
      → asked_of (frame msg ++ rest) ≡ some query
  asked_of-frame msg rest query (low, high, e) =
      let len : from_be16 (length msg / 2 ^ 8 % 2 ^ 8) (length msg % 2 ^ 8) ≡ length msg =
        from_be16-be16 (length msg) (omega arith) in
      rw (len, take-append_left msg rest (length msg) refl, e)
        (ground (arith, length-append msg rest))

  -- A round with a query in front of the stream.
  serve_step :
      (n : ℕ) (stream rest : List ℕ) (query : ℕ × Str × ℕ) (s : Stack)
      → asked_of stream ≡ some query
      → drop (from_be16 (at stream 0) (at stream 1)) (drop 2 stream) ≡ rest
      → serve_dns (suc n) stream s ≡ (
          let (answer, s') = answer_query idna query s in
          let (more, s'') = serve_dns n rest s' in (frame answer ++ more, s''))
  unfolding serve_dns
  serve_step n stream rest query s e d = rw (e, serve_dns) (rw d refl)

  rest_of_frame :
      (msg rest : List ℕ)
      → length msg < 2 ^ 16
      → drop (from_be16 (length msg / 2 ^ 8 % 2 ^ 8) (length msg % 2 ^ 8)) (msg ++ rest) ≡ rest
  rest_of_frame msg rest h =
      rw (from_be16-be16 (length msg) h) (drop-append_left msg rest (length msg) refl)

  serve_frames :
      (asks : List (List ℕ × (ℕ × Str × ℕ))) (n : ℕ) (rest : List ℕ) (s : Stack)
      → All Asks asks
      → length (frames asks ++ rest) ≤ n
      → serve_dns n (frames asks ++ rest) s ≡ (
          let (out, s') = answers asks s in
          let (more, s'') = serve_dns (length rest) rest s' in (out ++ more, s''))
  unfolding frames answers
  serve_frames [] n rest s h k = enough_rounds n (length rest) rest s k (omega arith)
  serve_frames ((msg, query) ∷ asks) zero rest s h k = absurd (omega arith)
  serve_frames ((msg, query) ∷ asks) (suc n) rest s h k =
      let (answer, s') = answer_query idna query s in
      let tail = frames asks ++ rest in
      let whole : frames ((msg, query) ∷ asks) ++ rest ≡ frame msg ++ tail =
        append_assoc (frame msg) (frames asks) rest in
      let fits : length tail ≤ n = omega (arith, ap length whole, length-append msg tail) in
      let ih = serve_frames asks n rest s' h.1 fits in
      let first : serve_dns (suc n) (frame msg ++ tail) s
          ≡ (frame answer ++ (serve_dns n tail s').0, (serve_dns n tail s').1) =
        serve_step n (frame msg ++ tail) tail query s (asked_of-frame msg tail query h.0)
          (rest_of_frame msg tail (omega (arith, h.0.1))) in
      ap (λ l. serve_dns (suc n) l s) whole
      ∙ first
      ∙ ap (λ r. (frame answer ++ r.0, r.1)) ih
      ∙ ap (λ l. (l, (serve_dns (length rest) rest (answers asks s').1).1))
          (sym (
            append_assoc (frame answer) (answers asks s').0
              (serve_dns (length rest) rest (answers asks s').1).0))

  -- Messages of 12 to 4096 bytes with a query in each, sent one after the other as frames, are
  -- answered one after the other as frames, each by the stack that the one before it left; what
  -- follows them is served by the stack that is left then.
  pub handle_dns_tcp-frames :
      (asks : List (List ℕ × (ℕ × Str × ℕ))) (rest : List ℕ) (s : Stack)
      → All Asks asks
      → handle_dns_tcp (frames asks ++ rest) s ≡ (
          let (out, s') = answers asks s in
          let (more, s'') = handle_dns_tcp rest s' in (out ++ more, s''))
  unfolding handle_dns_tcp
  handle_dns_tcp-frames asks rest s h =
      serve_frames asks (length (frames asks ++ rest)) rest s h (omega arith)

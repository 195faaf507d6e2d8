-- ===== src/Obfs/Tls/Write.antt =====
-- crates/clash-proxynet/src/obfs.rs: what poll_write puts on the wire is a hello and records.
use rust_clash.Common.{
  ℕ, zero, suc, ◌+◌, ◌-◌, ◌^◌, ◌<◌, ◌≤◌, ◌≡◌, refl, sym, ◌∙◌, ap, List, [], ◌∷◌, ◌++◌, arith,
  length, concat, All, length-append, take, drop, take-append-drop, take_all, length-take,
  length-drop, leb, Bool-cases, inl, inr, false, ◌==◌, take-add, take-take,
}
use mathlib.Core.List.{append_assoc, append-nil}
use Prim.Native.Nat.{min}
use rust_clash.Io.Writer.Law.{IsHonest, Takes}
use rust_clash.Obfs.Tls.{
  TlsWrite, Draws, build_tls_client_hello, header, chunk, offer, took, writer, max_record,
}
use rust_clash.Obfs.Tls.Records.{records, records-append, concat-append, IsRecord}

snoc_All :
    (ps : List (List ℕ)) (p : List ℕ) → All IsRecord ps → IsRecord p → All IsRecord (ps ++ (p ∷ []))
snoc_All [] p all h = (h, tt)
snoc_All (q ∷ ps) p all h = (all.0, snoc_All ps p all.1 h)

length-hello :
    (draws : Draws) (host payload : List ℕ) → 0 < length (build_tls_client_hello draws host payload)
unfolding build_tls_client_hello
length-hello draws host payload = omega arith

module _ (draws : Draws) (host : List ℕ) where
  -- A hello for `first`, and records.
  abbrev pub IsSent : List ℕ → List (List ℕ) → List ℕ → List ℕ → Type 0
  IsSent first ps out taken =
      All IsRecord ps
      × (out ≡ build_tls_client_hello draws host first ++ records ps)
      × (taken ≡ first ++ concat ps)

  abbrev pub Account : TlsWrite → List ℕ → List ℕ → List ℕ → Type 0
  Account TlsWrite.hello out taken rest = (out ≡ []) × (taken ≡ [])
  Account (TlsWrite.flush cur) out taken rest =
      (0 < length cur)
      × (out ++ cur ≡ build_tls_client_hello draws host (chunk rest))
      × (taken ≡ [])
  Account (TlsWrite.rec_hdr payload off) out taken rest =
      (0 < payload)
      × (payload ≤ length rest)
      × (payload < 2 ^ 16)
      × (off < 5)
      × ((first before : List ℕ) × (ps : List (List ℕ)) × IsSent first ps before taken
          × (out ≡ before ++ take off (header payload)))
  Account (TlsWrite.rec_body zero) out taken rest =
      (first : List ℕ) × (ps : List (List ℕ)) × IsSent first ps out taken
  Account (TlsWrite.rec_body (suc left)) out taken rest =
      (suc left ≤ length rest)
      × ((first before accepted part : List ℕ) × (ps : List (List ℕ)) × IsSent first ps before
            accepted
          × ((size : ℕ) × (size ≡ length part + suc left)
              × (size < 2 ^ 16)
              × (out ≡ before ++ (header size ++ part)))
          × (taken ≡ accepted ++ part))

  -- The bytes that go out before more are accepted.
  unfoldable pub cost : TlsWrite → List ℕ → ℕ
  cost TlsWrite.hello rest = length (build_tls_client_hello draws host (chunk rest))
  cost (TlsWrite.flush cur) rest = length cur
  cost (TlsWrite.rec_hdr payload off) rest = 6 - off
  cost (TlsWrite.rec_body zero) rest = 6
  cost (TlsWrite.rec_body (suc left)) rest = 0

  flush-Takes :
      (out cur taken rest : List ℕ) (n : ℕ)
      → 0 < length rest
      → Account (TlsWrite.flush cur) out taken rest
      → 0 < n
      → n ≤ length cur
      → Takes Account cost
          (out ++ take n cur)
          taken
          rest
          (length cur)
          (took draws host (TlsWrite.flush cur) rest n)
  unfolding took cost
  flush-Takes out cur taken rest n r (p, e, t) g few = elim (Bool-cases (leb (length cur) n)) [
    | inl h ↦
        let whole = take_all cur n (ground arith) in
        rw (h, whole, t)
          (
            ground arith,
            (
              chunk rest,
              [],
              (
                tt,
                e ∙ sym (append-nil (build_tls_client_hello draws host (chunk rest))),
                sym (append-nil (chunk rest)),
              ),
            ),
          )
    | inr h ↦ rw h (
      (
        ground (arith, length-drop n cur),
        append_assoc out (take n cur) (drop n cur)
            ∙ ap (λ c. out ++ c) (take-append-drop n cur)
            ∙ e,
        t,
      ),
      omega (arith, length-drop n cur),
    )
  ]

  -- Behind the header of a record.
  begun :
      (payload : ℕ) (first before : List ℕ) (ps : List (List ℕ)) (out taken rest : List ℕ) (off : ℕ)
      → 0 < payload
      → payload ≤ length rest
      → payload < 2 ^ 16
      → off < 5
      → IsSent first ps before taken
      → out ≡ before ++ (header payload ++ [])
      → Account (TlsWrite.rec_body payload) out taken rest
        × (cost (TlsWrite.rec_body payload) rest < 6 - off)
  unfolding cost
  begun zero first before ps out taken rest off p q m o sent e = absurd (omega arith)
  begun (suc left) first before ps out taken rest off p q m o sent e = (
    (
      q,
      (first, before, taken, [], ps, sent, (suc left, omega arith, m, e), sym (append-nil taken)),
    ),
    omega arith,
  )

  hdr-Takes :
      (payload off : ℕ) (out taken rest : List ℕ) (n : ℕ)
      → Account (TlsWrite.rec_hdr payload off) out taken rest
      → 0 < n
      → n ≤ length (drop off (header payload))
      → Takes Account cost
          (out ++ take n (drop off (header payload)))
          taken
          rest
          (6 - off)
          (took draws host (TlsWrite.rec_hdr payload off) rest n)
  unfolding took cost
  hdr-Takes payload off out taken rest n (p, q, m, o, (first, before, ps, sent, e)) g few =
      let some_taken : (n == 0) ≡ false = ground arith in
      let size = length-drop off (header payload) in
      let more : out ++ take n (drop off (header payload))
          ≡ before ++ take (off + n) (header payload) =
        ap (λ o. o ++ take n (drop off (header payload))) e
        ∙ append_assoc before (take off (header payload)) (take n (drop off (header payload)))
        ∙ ap (λ r. before ++ r) (sym (take-add off n (header payload))) in
      let less_cost : 6 - (off + n) < 6 - off = omega (arith, o, g) in
      elim (Bool-cases (leb 5 (off + n))) [
        | inl t ↦
            let all : take (off + n) (header payload) ≡ header payload ++ [] =
              take_all (header payload) (off + n) (ground (arith, few, size))
              ∙ sym (append-nil (header payload)) in
            rw (some_taken, t)
              (begun payload first before ps (out ++ take n (drop off (header payload))) taken rest
                off p q m o sent (more ∙ ap (λ r. before ++ r) all))
        | inr f ↦
            rw (some_taken, f, more)
              ((p, q, m, ground arith, (first, before, ps, sent, refl)), less_cost)
      ]

  -- A record with `more` behind its `part`, of which `left` bytes are missing.
  grown :
      (left size : ℕ) (first before accepted part more out taken rest : List ℕ) (ps : List (List ℕ))
      → left ≤ length rest
      → IsSent first ps before accepted
      → size ≡ length (part ++ more) + left
      → 0 < size
      → size < 2 ^ 16
      → out ≡ before ++ (header size ++ (part ++ more))
      → taken ≡ accepted ++ (part ++ more)
      → Account (TlsWrite.rec_body left) out taken rest
  grown zero size first before accepted part more out taken rest ps q (all, b, a) n p m e t =
      let whole : size ≡ length (part ++ more) = omega (arith, n) in
      let start = build_tls_client_hello draws host first in
      let record_of : List ℕ = header (length (part ++ more)) ++ (part ++ more) in
      (
        first,
        ps ++ ((part ++ more) ∷ []),
        (
          snoc_All ps (part ++ more) all (omega (arith, whole), omega (arith, whole)),
          e
              ∙ ap (λ k. before ++ (header k ++ (part ++ more))) whole
              ∙ ap (λ o. o ++ record_of) b
              ∙ append_assoc start (records ps) record_of
              ∙ ap (λ r. start ++ r) (sym (records-append ps (part ++ more))),
          t
              ∙ ap (λ o. o ++ (part ++ more)) a
              ∙ append_assoc first (concat ps) (part ++ more)
              ∙ ap (λ r. first ++ r) (sym (concat-append ps (part ++ more))),
        ),
      )
  grown (suc left) size first before accepted part more out taken rest ps q sent n p m e t =
      (q, (first, before, accepted, part ++ more, ps, sent, (size, n, m, e), t))

  body-Takes :
      (left : ℕ) (out taken rest : List ℕ) (n : ℕ)
      → Account (TlsWrite.rec_body (suc left)) out taken rest
      → 0 < n
      → n ≤ suc left
      → Takes Account cost
          (out ++ take n (take (min (length rest) (suc left)) rest))
          taken
          rest
          0
          (took draws host (TlsWrite.rec_body (suc left)) rest n)
  unfolding took
  body-Takes left out taken rest n
        (q, (first, before, accepted, part, ps, sent, (size, k, m, e), t)) g few =
      let some_taken : (n == 0) ≡ false = ground arith in
      let front = take n rest in
      let same : take n (take (min (length rest) (suc left)) rest) ≡ front =
        take-take n (min (length rest) (suc left)) rest (omega (arith, q)) in
      rw (some_taken, same)
        (
          g,
          grown (suc left - n) size first before accepted part front (out ++ front) (taken ++ front)
              (drop n rest) ps (omega (arith, length-drop n rest)) sent
              (omega (arith, length-append part front, length-take n rest)) (omega arith) m
              (ap (λ o. o ++ front) e ∙ append_assoc before (header size ++ part) front)
              (ap (λ o. o ++ front) t ∙ append_assoc accepted part front),
        )

  pub writer-IsHonest : IsHonest Account cost (writer draws host)
  unfolding offer took cost
  writer-IsHonest TlsWrite.hello out taken rest p (o, t) =
      let first = build_tls_client_hello draws host (chunk rest) in
      let some_hello = length-hello draws host (chunk rest) in
      (
        some_hello,
        (some_hello, ap (λ r. r ++ first) o, t),
        λ n g few.
            flush-Takes out first taken rest n p (some_hello, ap (λ r. r ++ first) o, t) g few,
      )
  writer-IsHonest (TlsWrite.flush cur) out taken rest p a =
      (a.0, a, λ n g few. flush-Takes out cur taken rest n p a g few)
  writer-IsHonest (TlsWrite.rec_hdr payload off) out taken rest p a = (
    omega (arith, a.3, length-drop off (header payload)),
    a,
    λ n g few. hdr-Takes payload off out taken rest n a g few,
  )
  writer-IsHonest (TlsWrite.rec_body zero) out taken rest p (first, ps, sent) =
      let n = min (length rest) max_record in
      let a : Account (TlsWrite.rec_hdr n 0) out taken rest = (
        omega (arith, p),
        omega arith,
        omega arith,
        omega arith,
        (first, out, ps, sent, sym (append-nil out)),
      ) in
      (omega arith, a, λ k g few. hdr-Takes n 0 out taken rest k a g few)
  writer-IsHonest (TlsWrite.rec_body (suc left)) out taken rest p a =
      let size = length-take (min (length rest) (suc left)) rest in
      (
        omega (arith, a.0, size),
        a,
        λ n g few. body-Takes left out taken rest n a g (omega (arith, size, few)),
      )

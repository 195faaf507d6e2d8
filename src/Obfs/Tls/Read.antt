-- ===== src/Obfs/Tls/Read.antt =====
-- crates/clash-proxynet/src/obfs.rs: every step of the reader keeps what is due.
use rust_clash.Common.{
  ℕ, ◌-◌, ◌<◌, ◌≤◌, ◌≡◌, refl, sym, ◌∙◌, ap, List, [], ◌∷◌, ◌++◌, arith, length, concat, All,
  from_be16-be16, length-append, take, drop, take-append-drop, length-take, ltb, ltb→lt, Bool-cases,
  inl, inr, cut_append, ◌==◌,
}
use mathlib.Core.Path.{subst}
use mathlib.Core.List.{append_assoc}
use rust_clash.Io.Reads.{length_zero}
use rust_clash.Io.Steps.{Feeds, IsLawful}
use rust_clash.Obfs.Tls.{TlsRead, settle, feed, feed_some, reader, header}
use rust_clash.Obfs.Tls.Records.{records, IsRecord}

abbrev pub AreRecords : List ℕ → List ℕ → Type 0
AreRecords bytes payload =
    (ps : List (List ℕ)) × All IsRecord ps × (bytes ≡ records ps) × (payload ≡ concat ps)

-- What is due, by the state of the reader and what will arrive.
abbrev pub Due : TlsRead → List ℕ → List ℕ → Type 0
Due (TlsRead.skip left) bytes payload =
    (front tail : List ℕ) × (bytes ≡ front ++ tail)
    × (length front ≡ left)
    × (0 < left)
    × AreRecords tail payload
Due (TlsRead.hdr part) bytes payload = AreRecords (part ++ bytes) payload × (length part < 5)
Due (TlsRead.body left) bytes payload =
    (front tail behind : List ℕ) × (bytes ≡ front ++ tail)
    × (length front ≡ left)
    × (0 < left)
    × (payload ≡ front ++ behind)
    × AreRecords tail behind

-- Of two cuts of the same bytes, the shorter front is a front of the longer.
within :
    (got rest front tail : List ℕ)
    → got ++ rest ≡ front ++ tail
    → length got ≤ length front
    → (more : List ℕ) × (front ≡ got ++ more) × (rest ≡ more ++ tail)
within got rest front tail e h =
    let n = length got in
    let split = sym (take-append-drop n front) in
    let (same, left) =
      cut_append got rest (take n front) (drop n front ++ tail)
        (e ∙ ap (λ r. r ++ tail) split ∙ append_assoc (take n front) (drop n front) tail)
        (omega (arith, length-take n front)) in
    (drop n front, split ∙ ap (λ r. r ++ drop n front) (sym same), left)

skip-Feeds :
    (left : ℕ) (got rest payload : List ℕ)
    → 0 < length got
    → length got ≤ left
    → Due (TlsRead.skip left) (got ++ rest) payload
    → Feeds Due got rest payload (feed_some (TlsRead.skip left) got)
unfolding feed_some
skip-Feeds left got rest payload g few (front, tail, e, n, p, w) =
    let (more, q, r) = within got rest front tail e (omega (arith, n)) in
    let size = ap length q ∙ length-append got more in
    elim (Bool-cases (left - length got == 0)) [
      | inl t ↦
          let nothing : more ≡ [] = length_zero more (ground (arith, n, size)) in
          let same : rest ≡ tail = rw r (ap (λ m. m ++ tail) nothing) in
          rw t ((rw same w, omega arith), g)
      | inr f ↦ rw f ((more, tail, r, omega (arith, n, size), ground (arith, n, size), w), g)
    ]

hdr-Feeds :
    (part got rest payload : List ℕ)
    → 0 < length got
    → length got ≤ 5 - length part
    → Due (TlsRead.hdr part) (got ++ rest) payload
    → Feeds Due got rest payload (feed_some (TlsRead.hdr part) got)
unfolding feed_some
hdr-Feeds part got rest payload g few (([], all, e, q), short) =
    absurd (omega (arith, ap length e, length-append part (got ++ rest), length-append got rest))
hdr-Feeds part got rest payload g few ((p ∷ ps, all, e, q), short) =
    let whole = append_assoc part got rest ∙ e in
    elim (Bool-cases (ltb (length (part ++ got)) 5)) [
      | inl t ↦ rw t (((p ∷ ps, all, whole, q), ltb→lt _ _ t), g)
      | inr f ↦
          let (same, left) =
            cut_append (part ++ got) rest (header (length p)) (p ++ records ps) whole
              (ground (arith, length-append part got)) in
          let size = from_be16-be16 (length p) all.0.1 in
          rw (f, same, size)
            ((p, records ps, concat ps, left, refl, all.0.0, q, (ps, all.1, refl, refl)), g)
    ]

body-Feeds :
    (left : ℕ) (got rest payload : List ℕ)
    → 0 < length got
    → length got ≤ left
    → Due (TlsRead.body left) (got ++ rest) payload
    → Feeds Due got rest payload (feed_some (TlsRead.body left) got)
unfolding feed_some
body-Feeds left got rest payload g few (front, tail, behind, e, n, p, q, w) =
    let (more, c, r) = within got rest front tail e (omega (arith, n)) in
    let size = ap length c ∙ length-append got more in
    let some_part : got ≡ [] → payload ≡ [] = λ nil. absurd (omega (arith, ap length nil)) in
    let whole : payload ≡ got ++ (more ++ behind) =
      q ∙ ap (λ b. b ++ behind) c ∙ append_assoc got more behind in
    elim (Bool-cases (left - length got == 0)) [
      | inl t ↦
          let nothing : more ≡ [] = length_zero more (ground (arith, n, size)) in
          let same : rest ≡ tail = rw r (ap (λ m. m ++ tail) nothing) in
          rw t (behind, rw nothing at whole, (rw same w, omega arith), some_part)
      | inr f ↦ rw f (
        more ++ behind,
        whole,
        (more, tail, behind, r, omega (arith, n, size), ground (arith, n, size), refl, w),
        some_part,
      )
    ]

at_eof-Feeds : (s : TlsRead) (payload : List ℕ) → Due s [] payload → payload ≡ []
at_eof-Feeds (TlsRead.skip left) payload (front, tail, e, n, p, w) =
    absurd (omega (arith, n, p, ap length e, length-append front tail))
at_eof-Feeds (TlsRead.hdr part) payload (([], all, e, q), short) = q
at_eof-Feeds (TlsRead.hdr part) payload ((p ∷ ps, all, e, q), short) =
    absurd (omega (arith, short, ap length e, length-append part []))
at_eof-Feeds (TlsRead.body left) payload (front, tail, behind, e, n, p, q, w) =
    absurd (omega (arith, n, p, ap length e, length-append front tail))

feed-Feeds :
    (s : TlsRead) (got rest payload : List ℕ)
    → (length got ≡ 0 → rest ≡ [])
    → (0 < length got → Feeds Due got rest payload (feed_some s got))
    → Due s (got ++ rest) payload
    → Feeds Due got rest payload (feed s got)
unfolding feed
feed-Feeds s [] rest payload end k d =
    at_eof-Feeds s payload (subst (λ r. Due s r payload) (end refl) d)
feed-Feeds s (g ∷ got) rest payload end k d = k (omega arith)

pub reader-IsLawful : IsLawful Due reader
unfolding settle
reader-IsLawful room (TlsRead.skip left) bytes payload r d = (
  omega (arith, d.4),
  d,
  λ got rest few end cut.
      let e : Due (TlsRead.skip left) (got ++ rest) payload = rw (← cut) d in
      feed-Feeds (TlsRead.skip left) got rest payload end
        (λ g. skip-Feeds left got rest payload g (omega (arith, few)) e) e,
)
reader-IsLawful room (TlsRead.hdr part) bytes payload r d = (
  omega (arith, d.1),
  d,
  λ got rest few end cut.
      let e : Due (TlsRead.hdr part) (got ++ rest) payload = rw (← cut) d in
      feed-Feeds (TlsRead.hdr part) got rest payload end
        (λ g. hdr-Feeds part got rest payload g few e) e,
)
reader-IsLawful room (TlsRead.body left) bytes payload r d = (
  omega (arith, d.5),
  d,
  λ got rest few end cut.
      let e : Due (TlsRead.body left) (got ++ rest) payload = rw (← cut) d in
      feed-Feeds (TlsRead.body left) got rest payload end
        (λ g. body-Feeds left got rest payload g (omega (arith, few)) e) e,
)

-- ===== src/Obfs/Http/Read.antt =====
-- crates/clash-proxynet/src/obfs.rs: every step of the reader keeps what is due.
use rust_clash.Common.{
  ℕ, zero, suc, ◌<◌, ◌≤◌, ◌≡◌, refl, sym, ◌∙◌, ap, none, some, List, [], ◌∷◌, ◌++◌, arith, length,
  take, drop, take-append-drop, length-take, length-drop, ltb, Bool-cases, Option-cases, inl, inr,
  false, ◌==◌,
}
use mathlib.Core.Path.{subst}
use mathlib.Core.List.{append_assoc, append-nil}
use mathlib.Core.Option.{some-injective}
use Prim.Native.Nat.{min}
use rust_clash.Io.{Fed}
use rust_clash.Io.Reads.{length_zero}
use rust_clash.Io.Steps.{Feeds, Settles, IsLawful}
use rust_clash.Obfs.Http.{HttpRead, find_header_end, settle, feed, feed_header, reader}
use rust_clash.Obfs.Http.Header.{
  find_header_end-append, find_header_end_bounds, find_header_end_short,
}

drop_front :
    (m : ℕ) (front back : List ℕ) → m ≤ length front → drop m (front ++ back) ≡ drop m front ++ back
drop_front zero front back h = refl
drop_front (suc m) [] back h = absurd (omega arith)
drop_front (suc m) (b ∷ front) back h = drop_front m front back (omega arith)

-- `bytes` are a header of at most 4096 bytes and `payload`.
abbrev pub IsResponse : List ℕ → List ℕ → Type 0
IsResponse bytes payload =
    (k : ℕ) × (find_header_end bytes ≡ some k) × (drop k bytes ≡ payload) × (k ≤ 4096)

-- What is due, by the state of the reader and what will arrive.
abbrev pub Due : HttpRead → List ℕ → List ℕ → Type 0
Due (HttpRead.header acc) bytes payload =
    IsResponse (acc ++ bytes) payload × (find_header_end acc ≡ none)
Due (HttpRead.leftover rest) bytes payload = payload ≡ rest ++ bytes
Due HttpRead.transfer bytes payload = payload ≡ bytes

-- The header goes on, or is complete.
header-Feeds :
    (acc got rest payload : List ℕ)
    → 0 < length got
    → IsResponse ((acc ++ got) ++ rest) payload
    → Feeds Due got rest payload (Fed.again (feed_header (acc ++ got)))
unfolding feed_header
header-Feeds acc got rest payload g (k, e, d, small) =
    let now = acc ++ got in
    elim (Option-cases (find_header_end now)) [
      | inl f ↦
          let same : feed_header now ≡ HttpRead.header now = rw (feed_header, f) refl in
          subst (λ s. Due s rest payload × (0 < length got)) (sym same) (((k, e, d, small), f), g)
      | inr (m, f) ↦
          let same : k ≡ m = some-injective k m (sym e ∙ find_header_end-append now rest m f) in
          let inside = (find_header_end_bounds now m f).1 in
          let cut : drop k (now ++ rest) ≡ drop m now ++ rest =
            ap (λ j. drop j (now ++ rest)) same ∙ drop_front m now rest inside in
          let behind : feed_header now ≡ HttpRead.leftover (drop m now) =
            rw (feed_header, f) refl in
          subst (λ s. Due s rest payload × (0 < length got)) (sym behind) (sym d ∙ cut, g)
    ]

leftover-Settles :
    (room b : ℕ) (rest bytes payload : List ℕ)
    → 0 < room
    → payload ≡ (b ∷ rest) ++ bytes
    → Settles Due feed bytes payload (settle room (HttpRead.leftover (b ∷ rest)))
unfolding settle
leftover-Settles room b rest bytes payload r d =
    let whole = b ∷ rest in
    let n = min (length whole) room in
    let front = take n whole in
    let back = drop n whole in
    let cut : payload ≡ front ++ (back ++ bytes) =
      d ∙ ap (λ w. w ++ bytes) (sym (take-append-drop n whole)) ∙ append_assoc front back bytes in
    let some_part : front ≡ [] → payload ≡ [] =
      λ nil. absurd (omega (arith, r, ap length nil, length-take n whole)) in
    elim (Bool-cases (n == length whole)) [
      | inl t ↦
          let nothing : back ≡ [] = length_zero back (ground (arith, length-drop n whole)) in
          rw t (bytes, rw nothing at cut, refl, some_part)
      | inr f ↦ rw f (back ++ bytes, cut, refl, some_part)
    ]

feed-Feeds :
    (acc got rest payload : List ℕ)
    → (length got ≡ 0 → rest ≡ [])
    → Due (HttpRead.header acc) (got ++ rest) payload
    → Feeds Due got rest payload (feed (HttpRead.header acc) got)
unfolding feed
feed-Feeds acc [] rest payload end ((k, e, d, small), none_yet) = cc (
    sym e
    ∙ ap (λ r. find_header_end (acc ++ r)) (end refl)
    ∙ ap find_header_end (append-nil acc)
    ∙ none_yet)
feed-Feeds acc (g ∷ got) rest payload end (w, none_yet) =
    header-Feeds acc (g ∷ got) rest payload (omega arith) (rw (append_assoc acc (g ∷ got) rest) w)

-- What is passed on.
pass-Feeds :
    (got rest payload : List ℕ)
    → (length got ≡ 0 → rest ≡ [])
    → payload ≡ got ++ rest
    → Feeds Due got rest payload (feed HttpRead.transfer got)
unfolding feed
pass-Feeds got rest payload end d =
    (rest, d, refl, λ nil. d ∙ ap (λ x. x ++ rest) nil ∙ end (ap length nil))

pub reader-IsLawful : IsLawful Due reader
unfolding settle
reader-IsLawful room (HttpRead.header acc) bytes payload r ((k, e, d, small), none_yet) =
    let brief = find_header_end_short acc bytes k e none_yet in
    let fits : ltb 4096 (length acc) ≡ false = ground (arith, brief, small) in
    let due : Due (HttpRead.header acc) bytes payload = ((k, e, d, small), none_yet) in
    rw fits (
      omega arith,
      due,
      λ got rest few end cut. feed-Feeds acc got rest payload end (rw (← cut) due),
    )
reader-IsLawful room (HttpRead.leftover []) bytes payload r d =
    (r, d, λ got rest few end cut. pass-Feeds got rest payload end (d ∙ cut))
reader-IsLawful room (HttpRead.leftover (b ∷ rest)) bytes payload r d =
    leftover-Settles room b rest bytes payload r d
reader-IsLawful room HttpRead.transfer bytes payload r d =
    (r, d, λ got rest few end cut. pass-Feeds got rest payload end (d ∙ cut))

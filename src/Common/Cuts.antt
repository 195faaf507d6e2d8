-- ===== src/Common/Cuts.antt =====
-- What a part of a buffer holds at each place, and parts of a buffer that was cut or written.
use Prim.Native.Nat.{ℕ, zero, suc, ◌+◌, ◌≤◌, ◌<◌}
use Prim.Native.Nat.add
use mathlib.Core.Path.{◌≡◌, refl, sym, ap, ◌∙◌}
use mathlib.Core.List.{List, [], ◌∷◌}
use native.Mathlib.Omega.{arith}
use rust_clash.Common.Lists.{All, length, take, drop}
use rust_clash.Common.Bytes.{at, slice, write, at-drop, take-take}

pub at-take : (n j : ℕ) (buf : List ℕ) → j < n → at (take n buf) j ≡ at buf j
at-take zero j buf h = absurd (omega arith)
at-take (suc n) j [] h = refl
at-take (suc n) zero (b ∷ buf) h = refl
at-take (suc n) (suc j) (b ∷ buf) h = at-take n j buf (omega arith)

pub at-slice : (o n j : ℕ) (buf : List ℕ) → j < n → at (slice buf o n) j ≡ at buf (o + j)
at-slice o n j buf h = at-take n j (drop o buf) h ∙ sym (at-drop o j buf)

pub at-All {κ} : (P : ℕ → Type κ) (buf : List ℕ) (j : ℕ) → All P buf → j < length buf → P (at buf j)
at-All P [] j h k = absurd (omega arith)
at-All P (b ∷ buf) zero h k = h.0
at-All P (b ∷ buf) (suc j) h k = at-All P buf j h.1 (omega arith)

-- The part in front of a write.
pub take-write :
    (n i : ℕ) (part buf : List ℕ) → n ≤ i → i ≤ length buf → take n (write i part buf) ≡ take n buf
take-write zero i part buf h k = refl
take-write (suc n) zero part buf h k = absurd (omega arith)
take-write (suc n) (suc i) part [] h k = absurd (omega arith)
take-write (suc n) (suc i) part (b ∷ buf) h k =
    rw (add.suc i (length part)) (ap (◌∷◌ b) (take-write n i part buf (omega arith) (omega arith)))

pub slice-take : (o n t : ℕ) (buf : List ℕ) → o + n ≤ t → slice (take t buf) o n ≡ slice buf o n
slice-take zero n t buf h = take-take n t buf (omega arith)
slice-take (suc o) n zero buf h = absurd (omega arith)
slice-take (suc o) n (suc t) [] h = refl
slice-take (suc o) n (suc t) (b ∷ buf) h = slice-take o n t buf (omega arith)

-- Two buffers of one length that agree on their first places.
pub take_ext :
    (n : ℕ) (p q : List ℕ)
    → length p ≡ length q
    → ((j : ℕ) → j < n → at p j ≡ at q j)
    → take n p ≡ take n q
take_ext zero p q e same = refl
take_ext (suc n) [] [] e same = refl
take_ext (suc n) [] (c ∷ q) e same = absurd (omega (arith, e))
take_ext (suc n) (b ∷ p) [] e same = absurd (omega (arith, e))
take_ext (suc n) (b ∷ p) (c ∷ q) e same =
    let rest = take_ext n p q (omega (arith, e)) (λ j h. same (suc j) (omega arith)) in
    rw (same 0 (omega arith), rest) refl

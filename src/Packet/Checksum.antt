-- ===== src/Packet/Checksum.antt =====
-- A checksum written into the two zeroed bytes that it was computed over makes the sum come out.
use rust_clash.Common.{
  ℕ, zero, suc, ◌+◌, ◌*◌, ◌/◌, ◌%◌, ◌^◌, ◌<◌, ◌≤◌, ◌≡◌, refl, ap, List, [], ◌∷◌, arith, length,
  take, write, be16, from_be16, from_be16-be16,
}
use Prim.Native.Nat.add
use mathlib.Core.Path.{subst}
use rust_clash.Packet.{fold}
use rust_clash.Packet.Sum.{word_sum, fold_zero}

-- Even, by pairs.
unfoldable pub double : ℕ → ℕ
double zero = 0
double (suc n) = suc (suc (double n))

pub double_lem : (n : ℕ) → double n ≡ 2 * n
unfolding double
double_lem zero = refl
double_lem (suc n) = omega (arith, double_lem n)

write_later :
    (x y : ℕ) (i : ℕ) (part buf : List ℕ)
    → write (suc (suc i)) part (x ∷ y ∷ buf) ≡ x ∷ y ∷ write i part buf
write_later x y i part buf = rw (add.suc (suc i) (length part), add.suc i (length part)) refl

pub word_sum-write :
    (i n : ℕ) (hi lo : ℕ) (buf : List ℕ)
    → double i + 2 ≤ n
    → double i + 2 ≤ length buf
    → word_sum (take n (write (double i) (hi ∷ lo ∷ []) buf))
      ≡ word_sum (take n (write (double i) (0 ∷ 0 ∷ []) buf)) + from_be16 hi lo
unfolding word_sum double
word_sum-write zero zero hi lo buf h k = absurd (omega arith)
word_sum-write zero (suc zero) hi lo buf h k = absurd (omega arith)
word_sum-write zero (suc (suc n)) hi lo buf h k = omega arith
word_sum-write (suc i) zero hi lo buf h k = absurd (omega arith)
word_sum-write (suc i) (suc zero) hi lo buf h k = absurd (omega arith)
word_sum-write (suc i) (suc (suc n)) hi lo [] h k = absurd (omega arith)
word_sum-write (suc i) (suc (suc n)) hi lo (x ∷ []) h k = absurd (omega arith)
word_sum-write (suc i) (suc (suc n)) hi lo (x ∷ y ∷ buf) h k =
    let cut : List ℕ → ℕ = λ b. word_sum (take (suc (suc n)) b) in
    omega (
      arith,
      ap cut (write_later x y (double i) (hi ∷ lo ∷ []) buf),
      ap cut (write_later x y (double i) (0 ∷ 0 ∷ []) buf),
      word_sum-write i n hi lo buf (omega arith) (omega arith),
    )

-- Writing at the same place twice.
pub write-write :
    (i : ℕ) (x y a b : ℕ) (buf : List ℕ)
    → i + 2 ≤ length buf
    → write i (x ∷ y ∷ []) (write i (a ∷ b ∷ []) buf) ≡ write i (x ∷ y ∷ []) buf
write-write zero x y a b [] h = absurd (omega arith)
write-write zero x y a b (u ∷ []) h = absurd (omega arith)
write-write zero x y a b (u ∷ v ∷ buf) h = refl
write-write (suc i) x y a b [] h = absurd (omega arith)
write-write (suc i) x y a b (u ∷ buf) h =
    rw (add.suc i 2) (ap (◌∷◌ u) (write-write i x y a b buf (omega arith)))

checksum_at :
    (i n start sum total : ℕ) (buf : List ℕ)
    → double i + 2 ≤ n
    → double i + 2 ≤ length buf
    → sum ≡ start + word_sum (take n (write (double i) (0 ∷ 0 ∷ []) buf))
    → sum + 0xffff < 2 ^ 32
    → (c : ℕ) → (c < 2 ^ 16) × ((sum + c) % 65535 ≡ 0) × (0 < sum + c)
    → total
      ≡ start + word_sum (take n (write (double i) (be16 c) (write (double i) (0 ∷ 0 ∷ []) buf)))
    → fold total ≡ 0
checksum_at i n start sum total buf h k e small c (narrow, zeros, positive) t =
    let value = from_be16-be16 c narrow in
    let added = word_sum-write i n (c / 2 ^ 8 % 2 ^ 8) (c % 2 ^ 8) buf h k in
    let once = write-write (double i) (c / 2 ^ 8 % 2 ^ 8) (c % 2 ^ 8) 0 0 buf k in
    let written = ap (λ b. word_sum (take n b)) once in
    let same : total ≡ sum + c = omega (arith, added, value, written) in
    rw same (fold_zero (sum + c) (omega arith) zeros positive)

-- A receiver that adds the sum `start` of the pseudo header to that of the words finds 0, when the
-- two bytes at the even place `j` hold a number that complements the sum.
pub fold-write_checksum :
    (j n start sum total : ℕ) (buf : List ℕ)
    → j % 2 ≡ 0
    → j + 2 ≤ n
    → j + 2 ≤ length buf
    → sum ≡ start + word_sum (take n (write j (0 ∷ 0 ∷ []) buf))
    → sum + 0xffff < 2 ^ 32
    → (c : ℕ) → (c < 2 ^ 16) × ((sum + c) % 65535 ≡ 0) × (0 < sum + c)
    → total ≡ start + word_sum (take n (write j (be16 c) (write j (0 ∷ 0 ∷ []) buf)))
    → fold total ≡ 0
fold-write_checksum j n start sum total buf even =
    let e : double (j / 2) ≡ j = omega (arith, double_lem (j / 2)) in
    subst
      (λ i.
        i + 2 ≤ n
        → i + 2 ≤ length buf
        → sum ≡ start + word_sum (take n (write i (0 ∷ 0 ∷ []) buf))
        → sum + 0xffff < 2 ^ 32
        → (c : ℕ) → (c < 2 ^ 16) × ((sum + c) % 65535 ≡ 0) × (0 < sum + c)
        → total ≡ start + word_sum (take n (write i (be16 c) (write i (0 ∷ 0 ∷ []) buf)))
        → fold total ≡ 0)
      e (checksum_at (j / 2) n start sum total buf)

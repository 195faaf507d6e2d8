-- ===== src/Common/Xor.antt =====
-- Exclusive or: twice the same number changes nothing.
use Prim.Native.Nat.{
  ℕ, zero, suc, ◌+◌, ◌*◌, ◌/◌, ◌%◌, ◌≤◌, ◌<◌, bit_xor, bit_xor-bitwise, differ, digits,
}
use mathlib.Core.Path.{◌≡◌, refl, sym, ap, ◌∙◌}
use native.Mathlib.Omega.{arith}

abbrev xor_digits : ℕ → ℕ → ℕ → ℕ
xor_digits = digits (λ b. b) differ

-- Any count of digits is enough.
enough : (n m a b : ℕ) → a ≤ n → a ≤ m → xor_digits n a b ≡ xor_digits m a b
enough zero zero a b h k = refl
enough zero (suc m) zero b h k = refl
enough zero (suc m) (suc a) b h k = absurd (omega arith)
enough (suc n) zero zero b h k = refl
enough (suc n) zero (suc a) b h k = absurd (omega arith)
enough (suc n) (suc m) zero b h k = refl
enough (suc n) (suc m) (suc a) b h k =
    ap (λ d. d * 2 + differ (suc a % 2) (b % 2))
      (enough n m (suc a / 2) (b / 2) (omega arith) (omega arith))

differ_below : (x y : ℕ) → x < 2 → y < 2 → differ x y < 2
differ_below zero y h k = k
differ_below (suc x) zero h k = h
differ_below (suc x) (suc y) h k = differ_below x y (omega arith) (omega arith)

bit_xor_split : (a b : ℕ) → bit_xor a b ≡ bit_xor (a / 2) (b / 2) * 2 + differ (a % 2) (b % 2)
bit_xor_split zero b = bit_xor-bitwise 0 b ∙ omega (arith, bit_xor-bitwise 0 (b / 2))
bit_xor_split (suc a) b =
    bit_xor-bitwise (suc a) b
    ∙ ap (λ d. d * 2 + differ (suc a % 2) (b % 2))
        (enough a (suc a / 2) (suc a / 2) (b / 2) (omega arith) (omega arith))
    ∙ ap (λ d. d * 2 + differ (suc a % 2) (b % 2)) (sym (bit_xor-bitwise (suc a / 2) (b / 2)))

differ_twice : (x y : ℕ) → x < 2 → y < 2 → differ (differ x y) y ≡ x
differ_twice zero zero h k = refl
differ_twice zero (suc zero) h k = refl
differ_twice zero (suc (suc y)) h k = absurd (omega arith)
differ_twice (suc zero) zero h k = refl
differ_twice (suc zero) (suc zero) h k = refl
differ_twice (suc zero) (suc (suc y)) h k = absurd (omega arith)
differ_twice (suc (suc x)) y h k = absurd (omega arith)

nothing : bit_xor (bit_xor 0 0) 0 ≡ 0
nothing = refl

within : (fuel a b : ℕ) → a ≤ fuel → b ≤ fuel → bit_xor (bit_xor a b) b ≡ a
within zero zero zero h k = nothing
within zero (suc a) b h k = absurd (omega arith)
within zero zero (suc b) h k = absurd (omega arith)
within (suc fuel) a b h k =
    let d = differ (a % 2) (b % 2) in
    let small = differ_below (a % 2) (b % 2) (omega arith) (omega arith) in
    let half : bit_xor a b / 2 ≡ bit_xor (a / 2) (b / 2) =
      omega (arith, bit_xor_split a b, small) in
    let last : bit_xor a b % 2 ≡ d = omega (arith, bit_xor_split a b, small) in
    bit_xor_split (bit_xor a b) b
    ∙ ap (λ x. bit_xor x (b / 2) * 2 + differ (bit_xor a b % 2) (b % 2)) half
    ∙ ap (λ x. bit_xor (bit_xor (a / 2) (b / 2)) (b / 2) * 2 + differ x (b % 2)) last
    ∙ omega (
      arith,
      within fuel (a / 2) (b / 2) (omega arith) (omega arith),
      differ_twice (a % 2) (b % 2) (omega arith) (omega arith),
    )

pub bit_xor_twice : (a b : ℕ) → bit_xor (bit_xor a b) b ≡ a
bit_xor_twice a b = within (a + b) a b (omega arith) (omega arith)

-- ===== src/Decimal.antt =====
-- Numbers in decimal digits, as `Display` of Rust's unsigned integers writes them.
use rust_clash.Common.{
  ℕ, zero, suc, ◌+◌, ◌/◌, ◌%◌, ◌<◌, ◌≡◌, refl, [], ◌∷◌, arith, ltb, if◌then◌else◌, All, ◌≤◌,
  Bool-cases, inl, inr, contains, nat_eq, true, false,
}
use rust_clash.Utf8.{as_bytes}
use rust_clash.Text.{Str}

-- The digits in front of `behind`, in at most `fuel` rounds.
unfoldable digits : ℕ → ℕ → Str → Str
digits zero n behind = behind
digits (suc fuel) n behind =
    let more = digits fuel (n / 10) ((48 + n % 10) ∷ behind) in
    if ltb n 10 then (48 + n) ∷ behind else more

-- Each round takes a digit, and a number has fewer digits than its own value and one.
unfoldable pub to_string : ℕ → Str
unfolding digits
to_string n = digits (suc n) n []

abbrev pub IsDigit : ℕ → Type 0
IsDigit c = (48 ≤ c) × (c ≤ 57)

digits-IsDigit :
    (fuel n : ℕ) (behind : Str) → All IsDigit behind → All IsDigit (digits fuel n behind)
unfolding digits
digits-IsDigit zero n behind h = h
digits-IsDigit (suc fuel) n behind h = elim (Bool-cases (ltb n 10)) [
  | inl t ↦ rw t ((omega arith, ground (arith, t)), h)
  | inr f ↦
      rw f (digits-IsDigit fuel (n / 10) ((48 + n % 10) ∷ behind) ((omega arith, omega arith), h))
]

pub to_string-IsDigit : (n : ℕ) → All IsDigit (to_string n)
unfolding to_string
to_string-IsDigit n = digits-IsDigit (suc n) n [] tt

-- In UTF-8 a number has no byte below the digits.
pub digits_without : (b : ℕ) (s : Str) → b < 48 → All IsDigit s → contains b (as_bytes s) ≡ false
unfolding contains as_bytes
digits_without b [] l h = refl
digits_without b (c ∷ s) l h =
    let small : ltb c 128 ≡ true = ground (arith, h.0) in
    rw small (ground (arith, h.0, l, digits_without b s l h.1))

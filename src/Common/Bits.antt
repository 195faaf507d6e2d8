-- ===== src/Common/Bits.antt =====
-- Checking a test on all numbers below a bound by evaluation, and bit masks on bytes.
use Prim.Native.Nat.{ℕ, zero, suc, ◌<◌}
use mathlib.Core.Path.{◌≡◌}
use mathlib.Core.Bool.{Bool, true, false}
use mathlib.Core.Logic.{inl, inr}
use native.Mathlib.Omega.{arith}
use rust_clash.Common.Tests.{if◌then◌else◌, Bool-cases, beq-cases, nat_eq}

unfoldable pub tabulate : (ℕ → Bool) → ℕ → Bool
tabulate test zero = true
tabulate test (suc bound) = if test bound then tabulate test bound else false

pub tabulate_lem :
    (test : ℕ → Bool) (bound : ℕ) → tabulate test bound ≡ true → (k : ℕ) → k < bound → test k ≡ true
unfolding tabulate
tabulate_lem test zero h k below = absurd (omega arith)
tabulate_lem test (suc bound) h k below = elim (Bool-cases (test bound)) [
  | inl t ↦
      let smaller : tabulate test bound ≡ true = rw t at h in
      elim (beq-cases k bound) [
        | inl e ↦ rw e t
        | inr e ↦ tabulate_lem test bound smaller k (omega (arith, e.0))
      ]
  | inr f ↦ cc (f, h)
]

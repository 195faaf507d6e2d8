-- ===== src/Common/Index.antt =====
-- Indexing, slicing and subtracting as Rust does them: what would panic is `none`.
use Prim.Native.Nat.{ℕ, zero, suc, ◌+◌, ◌-◌, ◌<◌, ◌≤◌}
use mathlib.Core.Path.{◌≡◌, refl}
use mathlib.Core.Bool.{false, ◌||◌}
use mathlib.Core.List.{List, [], ◌∷◌}
use mathlib.Core.Option.{Option, none, some}
use native.Mathlib.Omega.{arith}
use rust_clash.Common.Tests.{ltb, if◌then◌else◌}
use rust_clash.Common.Lists.{length, get_elem?}
use rust_clash.Common.Bytes.{at, slice, write, from_be16}
use rust_clash.Common.Writes.{length-write}
use rust_clash.Common.Options.{◌>>=◌}

-- `buf[i]`.
unfoldable pub index : List ℕ → ℕ → Option ℕ
index buf i = get_elem? buf i

-- The two bytes at `i`, as a number.
unfoldable pub index_be16 : List ℕ → ℕ → Option ℕ
unfolding index
index_be16 buf i = do high ← index buf i; low ← index buf (i + 1); some (from_be16 high low)

-- `buf[from..to]`.
unfoldable pub range : List ℕ → ℕ → ℕ → Option (List ℕ)
range buf from to =
    if ltb to from || ltb (length buf) to then none else some (slice buf from (to - from))

-- `a - b`.
unfoldable pub minus : ℕ → ℕ → Option ℕ
minus a b = if ltb a b then none else some (a - b)

-- `buf[i..i + part.len()].copy_from_slice(part)`.
unfoldable pub copy_in : ℕ → List ℕ → List ℕ → Option (List ℕ)
copy_in i part buf = if ltb (length buf) (i + length part) then none else some (write i part buf)

pub index-some : (buf : List ℕ) (i : ℕ) → i < length buf → index buf i ≡ some (at buf i)
unfolding index
index-some [] i h = absurd (omega arith)
index-some (b ∷ buf) zero h = refl
index-some (b ∷ buf) (suc i) h = index-some buf i (omega arith)

pub index_be16-some :
    (buf : List ℕ) (i : ℕ)
    → i + 1 < length buf
    → index_be16 buf i ≡ some (from_be16 (at buf i) (at buf (i + 1)))
unfolding index_be16
index_be16-some buf i h =
    rw (index_be16, index-some buf i (omega arith), index-some buf (i + 1) h) refl

pub range-some :
    (buf : List ℕ) (from to : ℕ)
    → from ≤ to
    → to ≤ length buf
    → range buf from to ≡ some (slice buf from (to - from))
unfolding range
range-some buf from to h k =
    let a : ltb to from ≡ false = ground arith in
    let b : ltb (length buf) to ≡ false = ground arith in rw (range, a, b) refl

pub minus-some : (a b : ℕ) → b ≤ a → minus a b ≡ some (a - b)
unfolding minus
minus-some a b h = let ok : ltb a b ≡ false = ground arith in rw (minus, ok) refl

-- In a buffer of `n` bytes.
pub copy_in-some :
    (n i : ℕ) (part buf : List ℕ)
    → length buf ≡ n
    → i + length part ≤ n
    → (copy_in i part buf ≡ some (write i part buf)) × (length (write i part buf) ≡ n)
unfolding copy_in
copy_in-some n i part buf size fits =
    let ok : ltb (length buf) (i + length part) ≡ false = ground arith in
    (rw (copy_in, ok) refl, omega (arith, size, length-write i part buf (omega (arith, size))))

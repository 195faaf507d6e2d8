-- ===== src/Common/Bytes.antt =====
-- Byte buffers: big-endian words, a range that is overwritten, and reading at an offset.
use Prim.Native.Nat.{ℕ, zero, suc, ◌+◌, ◌≤◌, ◌-◌, ◌*◌, ◌/◌, ◌%◌, ◌^◌, ◌<◌}
use Prim.Native.Nat.add
use mathlib.Core.Path.{◌≡◌, refl, sym, ap, ◌∙◌}
use mathlib.Core.List.{List, [], ◌∷◌, ◌++◌, append_assoc, append-nil}
use native.Mathlib.Omega.{arith}
use mathlib.Core.Bool.{Bool, true, false}
use rust_clash.Common.Tests.{if◌then◌else◌, ltb}
use rust_clash.Common.Lists.{
  All, length, get_or, take, drop, replicate, length-append, take-append_left, drop-append_left,
  length-drop,
}

abbrev pub IsByte : ℕ → Type 0
IsByte b = b < 256

-- `u16::to_be_bytes` and `u32::to_be_bytes`.
abbrev pub be16 : ℕ → List ℕ
be16 v = (v / 2 ^ 8 % 2 ^ 8) ∷ (v % 2 ^ 8) ∷ []

abbrev pub be32 : ℕ → List ℕ
be32 v = (v / 2 ^ 24 % 2 ^ 8) ∷ (v / 2 ^ 16 % 2 ^ 8) ∷ (v / 2 ^ 8 % 2 ^ 8) ∷ (v % 2 ^ 8) ∷ []

-- `u16::from_be_bytes`.
abbrev pub from_be16 : ℕ → ℕ → ℕ
from_be16 hi lo = hi * 2 ^ 8 + lo

pub from_be16-be16 : (v : ℕ) → v < 2 ^ 16 → from_be16 (v / 2 ^ 8 % 2 ^ 8) (v % 2 ^ 8) ≡ v
from_be16-be16 v h = omega arith

-- `buf[i]`, within the buffer, and `buf[i..i + n]`.
abbrev pub at : List ℕ → ℕ → ℕ
at buf i = get_or buf i 0

abbrev pub slice : List ℕ → ℕ → ℕ → List ℕ
slice buf i n = take n (drop i buf)

-- `buf[i..i + part.len()].copy_from_slice(part)`, within the buffer.
abbrev pub write : ℕ → List ℕ → List ℕ → List ℕ
write i part buf = take i buf ++ (part ++ drop (i + length part) buf)

pub at-drop : (o k : ℕ) (buf : List ℕ) → at buf (o + k) ≡ at (drop o buf) k
at-drop zero k buf = rw (add.zero k)
at-drop (suc o) k [] = refl
at-drop (suc o) k (b ∷ buf) = rw (add.suc o k) (at-drop o k buf)

pub drop-drop {ℓ} : {A : Type ℓ} (o k : ℕ) (buf : List A) → drop (o + k) buf ≡ drop k (drop o buf)
drop-drop zero k buf = rw (add.zero k)
drop-drop (suc o) zero [] = rw (add.suc o 0)
drop-drop (suc o) (suc k) [] = rw (add.suc o (suc k))
drop-drop (suc o) k (b ∷ buf) = rw (add.suc o k) (drop-drop o k buf)

pub take-add {ℓ} :
    {A : Type ℓ} (o k : ℕ) (buf : List A) → take (o + k) buf ≡ take o buf ++ take k (drop o buf)
take-add zero k buf = rw (add.zero k)
take-add (suc o) zero [] = rw (add.suc o 0)
take-add (suc o) (suc k) [] = rw (add.suc o (suc k))
take-add (suc o) k (b ∷ buf) = rw (add.suc o k) (ap (◌∷◌ b) (take-add o k buf))

pub take-take {ℓ} : {A : Type ℓ} (n m : ℕ) (buf : List A) → n ≤ m → take n (take m buf) ≡ take n buf
take-take zero m buf h = refl
take-take (suc n) zero buf h = absurd (omega arith)
take-take (suc n) (suc m) [] h = refl
take-take (suc n) (suc m) (b ∷ buf) h = ap (◌∷◌ b) (take-take n m buf (omega arith))

drop-replicate : (n k : ℕ) → drop n (replicate k 0) ≡ replicate {A = ℕ} (k - n) 0
drop-replicate zero k = let e : k - 0 ≡ k = omega arith in rw e
drop-replicate (suc n) zero = let e : 0 - suc n ≡ 0 = omega arith in rw e
drop-replicate (suc n) (suc k) =
    let e : suc k - suc n ≡ k - n = omega arith in rw e (drop-replicate n k)

-- Writing the next part of a zeroed buffer of which `done` is filled.
pub write-next :
    (done part : List ℕ) (i k : ℕ)
    → i ≡ length done
    → write i part (done ++ replicate k 0) ≡ (done ++ part) ++ replicate (k - length part) 0
write-next done part i k e =
    rw
      (
        take-append_left done (replicate k 0) i e,
        drop-drop i (length part),
        drop-append_left done (replicate k 0) i e,
        drop-replicate (length part) k,
      )
      (sym (append_assoc done part (replicate (k - length part) 0)))

-- What an offset knows of the buffer from the bytes that follow it.
pub length-of_drop :
    (o : ℕ) (buf : List ℕ) (b : ℕ) (t : List ℕ)
    → drop o buf ≡ b ∷ t
    → length buf ≡ o + suc (length t)
length-of_drop o buf b t h =
    let e : length (drop o buf) ≡ suc (length t) = ap length h in
    omega (arith, length-drop o buf, e)

pub at-of_drop : (o k : ℕ) (buf t : List ℕ) → drop o buf ≡ t → at buf (o + k) ≡ at t k
at-of_drop o k buf t h = rw (at-drop o k buf, h)

pub at-of_drop_zero : (o : ℕ) (buf t : List ℕ) → drop o buf ≡ t → at buf o ≡ at t 0
at-of_drop_zero o buf t h = let e : o + 0 ≡ o = omega arith in rw (← e) (at-of_drop o 0 buf t h)

pub drop-of_drop {ℓ} :
    {A : Type ℓ} (o k : ℕ) (buf t : List A) → drop o buf ≡ t → drop (o + k) buf ≡ drop k t
drop-of_drop o k buf t h = rw (drop-drop o k buf, h)

-- The next part of known length, and what follows it.
pub drop-of_part {ℓ} :
    {A : Type ℓ} (o k : ℕ) (buf part rest : List A)
    → drop o buf ≡ part ++ rest
    → k ≡ length part
    → drop (o + k) buf ≡ rest
drop-of_part o k buf part rest h e =
    drop-of_drop o k buf (part ++ rest) h ∙ drop-append_left part rest k e

-- Parts written one behind the other, from `i` on.
abbrev pub write_parts : ℕ → List (List ℕ) → List ℕ → List ℕ
write_parts i [] buf = buf
write_parts i (part ∷ parts) buf = write_parts (i + length part) parts (write i part buf)

abbrev pub concat : List (List ℕ) → List ℕ
concat [] = []
concat (part ∷ parts) = part ++ concat parts

pub write_parts-next :
    (parts : List (List ℕ)) (done : List ℕ) (i k : ℕ)
    → i ≡ length done
    → write_parts i parts (done ++ replicate k 0)
      ≡ (done ++ concat parts) ++ replicate (k - length (concat parts)) 0
write_parts-next [] done i k e = let same : k - 0 ≡ k = omega arith in rw (same, append-nil) refl
write_parts-next (part ∷ parts) done i k e =
    let less : k - length part - length (concat parts) ≡ k - length (part ++ concat parts) =
      omega (arith, length-append part (concat parts)) in
    rw (write-next done part i k e) (
      write_parts-next parts (done ++ part) (i + length part) (k - length part)
        (omega (arith, length-append done part))
      ∙ rw less (simp append_assoc))

-- A concrete buffer is one of bytes.
abbrev all_bytes : List ℕ → Bool
all_bytes [] = true
all_bytes (b ∷ buf) = if ltb b 256 then all_bytes buf else false

pub bytes_of_check : (buf : List ℕ) → all_bytes buf ≡ true → All IsByte buf
bytes_of_check [] h = tt
bytes_of_check (b ∷ buf) h = ground (arith, bytes_of_check buf)

-- Two ways to cut the same buffer after as many bytes are one.
pub cut_append {ℓ} :
    {A : Type ℓ} (a b c d : List A) → a ++ b ≡ c ++ d → length a ≡ length c → (a ≡ c) × (b ≡ d)
cut_append a b c d e n = (
  sym (take-append_left a b (length c) (sym n))
      ∙ ap (take (length c)) e
      ∙ take-append_left c d (length c) refl,
  sym (drop-append_left a b (length c) (sym n))
      ∙ ap (drop (length c)) e
      ∙ drop-append_left c d (length c) refl,
)

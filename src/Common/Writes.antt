-- ===== src/Common/Writes.antt =====
-- A buffer after a write: its length, what it holds at each place, and that its bytes are bytes.
use Prim.Native.Nat.{ℕ, zero, suc, ◌+◌, ◌-◌, ◌≤◌, ◌<◌}
use Prim.Native.Nat.add
use mathlib.Core.Path.{◌≡◌, refl, sym, ap, ◌∙◌, subst}
use mathlib.Core.List.{List, [], ◌∷◌, ◌++◌}
use native.Mathlib.Omega.{arith}
use rust_clash.Common.Lists.{
  length, take, drop, All, length-append, length-take, length-drop, drop-append_left,
}
use rust_clash.Common.Bytes.{at, write, at-drop, drop-drop}

module _ {ℓ κ} {A : Type ℓ} (P : A → Type κ) where
  pub All-take : (k : ℕ) (front : List A) → All P front → All P (take k front)
  All-take zero front h = tt
  All-take (suc k) [] h = tt
  All-take (suc k) (x ∷ front) h = (h.0, All-take k front h.1)

  pub All-drop : (k : ℕ) (front : List A) → All P front → All P (drop k front)
  All-drop zero front h = h
  All-drop (suc k) [] h = tt
  All-drop (suc k) (x ∷ front) h = All-drop k front h.1

  pub append-All : (front back : List A) → All P front → All P back → All P (front ++ back)
  append-All [] back f b = b
  append-All (x ∷ front) back f b = (f.0, append-All front back f.1 b)

pub write-All {κ} :
    (P : ℕ → Type κ) (i : ℕ) (part buf : List ℕ) → All P part → All P buf → All P (write i part buf)
write-All P i part buf h k =
    append-All P (take i buf) _ (All-take P i buf k)
      (append-All P part _ h (All-drop P (i + length part) buf k))

pub length-write :
    (i : ℕ) (part buf : List ℕ)
    → i + length part ≤ length buf
    → length (write i part buf) ≡ length buf
length-write i part buf h = omega (
  arith,
  length-append (take i buf) (part ++ drop (i + length part) buf),
  length-append part (drop (i + length part) buf),
  length-take i buf,
  length-drop (i + length part) buf,
)

pub at-write_before :
    (i j : ℕ) (part buf : List ℕ) → j < i → i ≤ length buf → at (write i part buf) j ≡ at buf j
at-write_before zero j part buf h k = absurd (omega arith)
at-write_before (suc i) j part [] h k = absurd (omega arith)
at-write_before (suc i) zero part (b ∷ buf) h k = refl
at-write_before (suc i) (suc j) part (b ∷ buf) h k =
    rw (add.suc i (length part)) (at-write_before i j part buf (omega arith) (omega arith))

at-part : (k : ℕ) (part rest : List ℕ) → k < length part → at (part ++ rest) k ≡ at part k
at-part k [] rest h = absurd (omega arith)
at-part zero (b ∷ part) rest h = refl
at-part (suc k) (b ∷ part) rest h = at-part k part rest (omega arith)

pub at-write_in :
    (i k : ℕ) (part buf : List ℕ)
    → k < length part
    → i ≤ length buf
    → at (write i part buf) (i + k) ≡ at part k
at-write_in zero k part buf h n = rw (add.zero k) (at-part k part _ h)
at-write_in (suc i) k part [] h n = absurd (omega arith)
at-write_in (suc i) k part (b ∷ buf) h n =
    rw (add.suc i k, add.suc i (length part)) (at-write_in i k part buf h (omega arith))

-- A write leaves alone what lies behind it.
pub drop-write :
    (i : ℕ) (part buf : List ℕ)
    → i ≤ length buf
    → drop (i + length part) (write i part buf) ≡ drop (i + length part) buf
drop-write i part buf h =
    drop-drop i (length part) (write i part buf)
    ∙ ap (drop (length part)) (
        drop-append_left (take i buf) (part ++ drop (i + length part) buf) i
          (omega (arith, length-take i buf)))
    ∙ drop-append_left part (drop (i + length part) buf) (length part) refl

pub at-write_after :
    (i k : ℕ) (part buf : List ℕ)
    → i ≤ length buf
    → at (write i part buf) (i + length part + k) ≡ at buf (i + length part + k)
at-write_after i k part buf h =
    at-drop (i + length part) k (write i part buf)
    ∙ ap (λ b. at b k) (drop-write i part buf h)
    ∙ sym (at-drop (i + length part) k buf)

pub at-write_above :
    (i j : ℕ) (part buf : List ℕ)
    → i + length part ≤ j
    → i ≤ length buf
    → at (write i part buf) j ≡ at buf j
at-write_above i j part buf h n =
    let e : i + length part + (j - (i + length part)) ≡ j = omega arith in
    subst (λ k. at (write i part buf) k ≡ at buf k) e
      (at-write_after i (j - (i + length part)) part buf n)

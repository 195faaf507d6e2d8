-- ===== src/Common/Map.antt =====
-- `HashMap` as an association list in which `insert` replaces and `remove` drops every entry of a
-- key, so that its length is the map's `len`. The order of the entries carries no meaning.
use Prim.Native.Nat.{◌+◌, ◌≤◌}
use mathlib.Core.Path.{◌≡◌, refl, sym, ◌∙◌}
use mathlib.Core.Logic.{◌≢◌, inl, inr}
use mathlib.Core.List.{List, [], ◌∷◌}
use mathlib.Core.Bool.{Bool, true, false, not, ◌&&◌, ◌||◌}
use mathlib.Core.Option.{Option, none, some}
use native.Mathlib.Omega.{arith}
use rust_clash.Common.Lists.{length, All}
use rust_clash.Common.Tests.{
  Eq, beq_refl, beq-eq_false, beq-cases, contains, IsNodup, if◌then◌else◌,
}

abbrev pub is_some {ℓ} : {A : Type ℓ} → Option A → Bool
is_some none = false
is_some (some a) = true

pub none_of_not-is_some {ℓ} : {A : Type ℓ} (o : Option A) → is_some o ≡ false → o ≡ none
none_of_not-is_some none h = refl
none_of_not-is_some (some a) h = cc

pub some_of_is_some {ℓ} : {A : Type ℓ} (o : Option A) → is_some o ≡ true → (a : A) × (o ≡ some a)
some_of_is_some none h = cc
some_of_is_some (some a) h = (a, refl)

module _ {K V : Type 0} where
  -- Some value passes the test: `values().any(p)`.
  unfoldable pub any_value : (V → Bool) → List (K × V) → Bool
  any_value p [] = false
  any_value p ((j, v) ∷ m) = p v || any_value p m

  -- Keep the entries that pass the test: `retain`.
  unfoldable pub retain : (K → V → Bool) → List (K × V) → List (K × V)
  retain p [] = []
  retain p ((j, v) ∷ m) = let rest = retain p m in if p j v then (j, v) ∷ rest else rest

module _ {K V : Type 0} ⦃e : Eq K⦄ where
  unfoldable pub lookup : K → List (K × V) → Option V
  lookup k [] = none
  lookup k ((j, v) ∷ m) = if e.beq j k then some v else lookup k m

  unfoldable pub insert : K → V → List (K × V) → List (K × V)
  insert k v [] = (k, v) ∷ []
  insert k v ((j, w) ∷ m) = if e.beq j k then (k, v) ∷ m else (j, w) ∷ insert k v m

  unfoldable pub remove : K → List (K × V) → List (K × V)
  remove k [] = []
  remove k ((j, w) ∷ m) = let rest = remove k m in if e.beq j k then rest else (j, w) ∷ rest

  abbrev pub contains_key : K → List (K × V) → Bool
  contains_key k m = is_some (lookup k m)

  pub lookup-insert :
      (k j : K) (v : V) (m : List (K × V))
      → lookup j (insert k v m) ≡ (if e.beq k j then some v else lookup j m)
  unfolding lookup insert
  lookup-insert k j v [] = refl
  lookup-insert k j v ((i, w) ∷ m) =
      ground (arith, e.beq_iff k j, e.beq_iff i k, e.beq_iff i j, lookup-insert k j v m)

  pub lookup-insert_self : (k : K) (v : V) (m : List (K × V)) → lookup k (insert k v m) ≡ some v
  lookup-insert_self k v m = simp (lookup-insert, beq_refl)

  pub lookup-remove :
      (k j : K) (m : List (K × V))
      → lookup j (remove k m) ≡ (if e.beq k j then none else lookup j m)
  unfolding lookup remove
  lookup-remove k j [] = ground arith
  lookup-remove k j ((i, w) ∷ m) =
      ground (arith, e.beq_iff k j, e.beq_iff i k, e.beq_iff i j, lookup-remove k j m)

  pub lookup-insert_ne :
      (k j : K) (v : V) (m : List (K × V)) → k ≢ j → lookup j (insert k v m) ≡ lookup j m
  lookup-insert_ne k j v m h = rw (lookup-insert, beq-eq_false k j h)

  pub lookup-remove_self : (k : K) (m : List (K × V)) → lookup k (remove k m) ≡ none
  lookup-remove_self k m = rw (lookup-remove, beq_refl k)

  pub lookup-remove_ne : (k j : K) (m : List (K × V)) → k ≢ j → lookup j (remove k m) ≡ lookup j m
  lookup-remove_ne k j m h = rw (lookup-remove, beq-eq_false k j h)

  -- No key twice: what a `HashMap` gives, and `insert` and `remove` keep.
  abbrev pub IsMap : List (K × V) → Type 0
  IsMap [] = Unit {0}
  IsMap ((k, v) ∷ m) = (lookup k m ≡ none) × IsMap m

  pub insert-IsMap : (k : K) (v : V) (m : List (K × V)) → IsMap m → IsMap (insert k v m)
  unfolding insert lookup
  insert-IsMap k v [] h = (refl, tt)
  insert-IsMap k v ((j, w) ∷ m) h = elim (beq-cases j k) [
    | inl x ↦ ground (arith, e.beq_iff j k)
    | inr n ↦
        let fresh = lookup-insert_ne k j v m (λ x. n.0 (sym x)) ∙ h.0 in
        rw n.1 (fresh, insert-IsMap k v m h.1)
  ]

  pub remove-IsMap : (k : K) (m : List (K × V)) → IsMap m → IsMap (remove k m)
  unfolding remove
  remove-IsMap k [] h = tt
  remove-IsMap k ((j, w) ∷ m) h = elim (beq-cases j k) [
    | inl x ↦ rw ((e.beq_iff j k).1 x) (remove-IsMap k m h.1)
    | inr n ↦
        let fresh = lookup-remove_ne k j m (λ x. n.0 (sym x)) ∙ h.0 in
        rw n.1 (fresh, remove-IsMap k m h.1)
  ]

  -- The number of entries after an insertion of a new key, and after a removal.
  pub length-insert :
      (k : K) (v : V) (m : List (K × V)) → lookup k m ≡ none → length (insert k v m) ≡ length m + 1
  unfolding insert lookup
  length-insert k v [] h = omega arith
  length-insert k v ((j, w) ∷ m) h = ground (arith, length-insert k v m)

  pub length-insert_le : (k : K) (v : V) (m : List (K × V)) → length (insert k v m) ≤ length m + 1
  unfolding insert
  length-insert_le k v [] = omega arith
  length-insert_le k v ((j, w) ∷ m) = ground (arith, length-insert_le k v m)

  pub remove_absent : (k : K) (m : List (K × V)) → lookup k m ≡ none → remove k m ≡ m
  unfolding remove lookup
  remove_absent k [] h = refl
  remove_absent k ((j, w) ∷ m) h = ground (arith, remove_absent k m)

  pub length-remove :
      (k : K) (v : V) (m : List (K × V))
      → IsMap m
      → lookup k m ≡ some v
      → length (remove k m) + 1 ≡ length m
  unfolding remove lookup
  length-remove k v [] d h = cc
  length-remove k v ((j, w) ∷ m) d h = elim (beq-cases j k) [
    | inl x ↦
        let absent : lookup k m ≡ none = rw (← x) d.0 in
        rw ((e.beq_iff j k).1 x, remove_absent k m absent) (omega arith)
    | inr n ↦
        let found : lookup k m ≡ some v = rw n.1 at h in
        rw n.1 (omega (arith, length-remove k v m d.1 found))
  ]

  pub contains_key-insert :
      (k j : K) (v : V) (m : List (K × V))
      → contains_key j (insert k v m) ≡ (e.beq k j || contains_key j m)
  contains_key-insert k j v m = rw lookup-insert (ground arith)

  pub contains_key-remove :
      (k j : K) (m : List (K × V))
      → contains_key j (remove k m) ≡ (contains_key j m && not (e.beq k j))
  contains_key-remove k j m = rw lookup-remove (ground arith)

  -- A predicate of all keys, after an insertion and a removal.
  pub AllKeys-insert :
      (P : K → Type 0) (k : K) (v : V) (m : List (K × V))
      → P k
      → ((j : K) (w : V) → lookup j m ≡ some w → P j)
      → (j : K) (w : V) → lookup j (insert k v m) ≡ some w
      → P j
  AllKeys-insert P k v m new old j w h = elim (beq-cases k j) [
    | inl x ↦ rw (← x) new
    | inr n ↦ old j w (sym (lookup-insert_ne k j v m n.0) ∙ h)
  ]

  pub AllKeys-remove :
      (P : K → Type 0) (k : K) (m : List (K × V))
      → ((j : K) (w : V) → lookup j m ≡ some w → P j)
      → (j : K) (w : V) → lookup j (remove k m) ≡ some w
      → P j
  AllKeys-remove P k m old j w h = elim (beq-cases k j) [
    | inl x ↦ cc (lookup-remove_self k m)
    | inr n ↦ old j w (sym (lookup-remove_ne k j m n.0) ∙ h)
  ]

  abbrev pub AllIn : List (K × V) → List K → Type 0
  AllIn m ks = All (λ k. contains_key k m ≡ true) ks

  pub AllIn-remove :
      (k : K) (m : List (K × V)) (ks : List K)
      → contains k ks ≡ false
      → AllIn m ks
      → AllIn (remove k m) ks
  unfolding contains
  AllIn-remove k m [] h a = tt
  AllIn-remove k m (x ∷ ks) h a = (
    contains_key-remove k x m ∙ ground (arith, e.beq_iff x k, e.beq_iff k x, a.0),
    AllIn-remove k m ks (ground arith) a.1,
  )

  -- Different keys of a map are no more than its entries.
  pub length-le_of_AllIn :
      (ks : List K) (m : List (K × V))
      → IsNodup ks
      → IsMap m
      → All (λ k. contains_key k m ≡ true) ks
      → length ks ≤ length m
  length-le_of_AllIn [] m d u a = omega arith
  length-le_of_AllIn (k ∷ ks) m d u a =
      let (v, h) = some_of_is_some (lookup k m) a.0 in
      omega (
        arith,
        length-remove k v m u h,
        length-le_of_AllIn ks (remove k m) d.1 (remove-IsMap k m u) (AllIn-remove k m ks d.0 a.1),
      )

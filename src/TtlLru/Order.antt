-- ===== src/TtlLru/Order.antt =====
-- crates/clash-core/src/utils.rs: the order of the entries as an order of the keys.
use rust_clash.Common.{
  suc, ◌≡◌, refl, ap, false, none, List, [], ◌∷◌, arith, length, lookup, contains, list_eq, nat_eq,
  AllIn, beq_refl, IsMap, IsNodup,
}
use rust_clash.Text.{Str}
use rust_clash.TtlLru.{Entry}
use rust_clash.TtlLru.Bounds.{KeysLaw}

-- The keys in the order of the list.
unfoldable pub list_keys : {T : Type 0} → List (Str × Entry T) → List Str
list_keys [] = []
list_keys ((k, e) ∷ m) = k ∷ list_keys m

module _ {T : Type 0} where
  contains-list_keys :
      (k : Str) (m : List (Str × Entry T)) → lookup k m ≡ none → contains k (list_keys m) ≡ false
  unfolding lookup contains list_keys
  contains-list_keys k [] h = refl
  contains-list_keys k ((j, e) ∷ m) h = ground (arith, contains-list_keys k m)

  AllIn-later :
      (k : Str) (e : Entry T) (m : List (Str × Entry T)) (ks : List Str)
      → AllIn m ks
      → AllIn ((k, e) ∷ m) ks
  unfolding lookup
  AllIn-later k e m [] h = tt
  AllIn-later k e m (j ∷ ks) h = (ground (arith, h.0), AllIn-later k e m ks h.1)

  IsNodup-list_keys : (m : List (Str × Entry T)) → IsMap m → IsNodup (list_keys m)
  unfolding list_keys
  IsNodup-list_keys [] u = tt
  IsNodup-list_keys ((k, e) ∷ m) u = (contains-list_keys k m u.0, IsNodup-list_keys m u.1)

  AllIn-list_keys : (m : List (Str × Entry T)) → AllIn m (list_keys m)
  unfolding lookup list_keys
  AllIn-list_keys [] = tt
  AllIn-list_keys ((k, e) ∷ m) =
      (rw (beq_refl k) refl, AllIn-later k e m (list_keys m) (AllIn-list_keys m))

  length-list_keys : (m : List (Str × Entry T)) → length (list_keys m) ≡ length m
  unfolding list_keys
  length-list_keys [] = refl
  length-list_keys ((k, e) ∷ m) = ap suc (length-list_keys m)

  pub list_keys-KeysLaw : KeysLaw (list_keys {T = T})
  list_keys-KeysLaw m u = (IsNodup-list_keys m u, AllIn-list_keys m, length-list_keys m)

-- ===== src/Common/InverseMaps.antt =====
-- Two maps that are inverse to each other, where the values of the second carry the keys of the
-- first: what each way of writing to both keeps.
use mathlib.Core.Path.{◌≡◌, sym, ◌∙◌}
use mathlib.Core.Logic.{◌≢◌, inl, inr}
use mathlib.Core.List.{List}
use mathlib.Core.Option.{none, some}
use rust_clash.Common.Tests.{Eq, beq-cases}
use rust_clash.Common.Map.{
  lookup, insert, remove, lookup-insert_self, lookup-insert_ne, lookup-remove_self,
  lookup-remove_ne,
}

pub record Inverse {K P S : Type 0} ⦃e : Eq K⦄ ⦃f : Eq P⦄ (key : S → K) (m : List (K × P))
    (w : List (P × S)) : Type 0 where
  pub forward :
      (k : K) (p : P) → lookup k m ≡ some p → (s : S) × (lookup p w ≡ some s) × (key s ≡ k)
  pub backward : (p : P) (s : S) → lookup p w ≡ some s → lookup (key s) m ≡ some p

module _ {K P S : Type 0} ⦃e : Eq K⦄ ⦃f : Eq P⦄ (key : S → K) (m : List (K × P)) (w : List (P × S))
    (i : Inverse key m w) where
  -- Different keys have different values.
  pub forward_injective : (j k : K) (p : P) → lookup j m ≡ some p → lookup k m ≡ some p → j ≡ k
  forward_injective j k p hj hk =
      let (s, hs, es) = i.forward j p hj in let (t, ht, et) = i.forward k p hk in cc

  -- Writing a value with the same key over an old one.
  pub Inverse-overwrite :
      (p : P) (old s : S) → lookup p w ≡ some old → key s ≡ key old → Inverse key m (insert p s w)
  Inverse-overwrite p old s h same = record {
    forward = λ k q hq.
        let (o, ho, eo) = i.forward k q hq in
        elim (beq-cases p q) [
          | inl x ↦ (s, rw (← x) (lookup-insert_self p s w), cc)
          | inr n ↦ (o, rw (lookup-insert_ne p q s w n.0) ho, eo)
        ];
    backward = λ q t ht. elim (beq-cases p q) [
      | inl x ↦ cc (lookup-insert_self p s w, i.backward p old h)
      | inr n ↦ i.backward q t (sym (lookup-insert_ne p q s w n.0) ∙ ht)
    ];
  }

  -- A new key with a value that is not in use.
  pub Inverse-insert :
      (p : P) (s : S)
      → lookup p w ≡ none
      → lookup (key s) m ≡ none
      → Inverse key (insert (key s) p m) (insert p s w)
  Inverse-insert p s free fresh = record {
    forward = λ k q hq. elim (beq-cases (key s) k) [
      | inl x ↦ (s, cc (lookup-insert_self p s w, lookup-insert_self (key s) p m), x)
      | inr n ↦
          let (o, ho, eo) = i.forward k q (sym (lookup-insert_ne (key s) k p m n.0) ∙ hq) in
          let other : p ≢ q = λ x. cc in (o, rw (lookup-insert_ne p q s w other) ho, eo)
    ];
    backward = λ q t ht. elim (beq-cases p q) [
      | inl x ↦ cc (lookup-insert_self p s w, lookup-insert_self (key s) p m)
      | inr n ↦
          let old = i.backward q t (sym (lookup-insert_ne p q s w n.0) ∙ ht) in
          let other : key s ≢ key t = λ x. cc in rw (lookup-insert_ne (key s) (key t) p m other) old
    ];
  }

  -- Dropping a pair from both.
  pub Inverse-remove :
      (p : P) (s : S) → lookup p w ≡ some s → Inverse key (remove (key s) m) (remove p w)
  Inverse-remove p s h = record {
    forward = λ k q hq. elim (beq-cases (key s) k) [
      | inl x ↦ cc (lookup-remove_self (key s) m)
      | inr n ↦
          let (o, ho, eo) = i.forward k q (sym (lookup-remove_ne (key s) k m n.0) ∙ hq) in
          let other : p ≢ q = λ x. n.0 cc in (o, rw (lookup-remove_ne p q w other) ho, eo)
    ];
    backward = λ q t ht. elim (beq-cases p q) [
      | inl x ↦ cc (lookup-remove_self p w)
      | inr n ↦
          let old = i.backward q t (sym (lookup-remove_ne p q w n.0) ∙ ht) in
          let other : key s ≢ key t = λ x. n.0 (cc (i.backward p s h)) in
          rw (lookup-remove_ne (key s) (key t) m other) old
    ];
  }

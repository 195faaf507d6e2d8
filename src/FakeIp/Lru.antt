-- ===== src/FakeIp/Lru.antt =====
-- The queue of recent hosts in crates/clash-core/src/dns.rs: what `touch` and `evict` do to it.
use rust_clash.Common.{
  suc, ◌≡◌, refl, true, false, ◌&&◌, not, List, [], ◌∷◌, none, some, arith, Eq, length, contains,
  IsNodup, beq-cases, inl, inr, beq_refl,
}
use rust_clash.FakeIp.{take_out, pop_back}

module _ {A : Type 0} ⦃e : Eq A⦄ where
  -- What moving a member `a` to the front keeps.
  pub record Moved (a : A) (l rest : List A) : Type 0 where
    pub members : (x : A) → contains x (a ∷ rest) ≡ contains x l
    pub measure : suc (length rest) ≡ length l
    pub once : IsNodup l → IsNodup (a ∷ rest)

  -- What dropping the last keeps.
  pub record Popped (l rest : List A) (oldest : A) : Type 0 where
    pub members : IsNodup l → (x : A) → contains x rest ≡ (contains x l && not (e.beq oldest x))
    pub measure : suc (length rest) ≡ length l
    pub once : IsNodup l → IsNodup rest
    pub member : contains oldest l ≡ true

  pub take_out-none : (a : A) (l : List A) → contains a l ≡ false → take_out a l ≡ none
  unfolding take_out contains
  take_out-none a [] h = refl
  take_out-none a (x ∷ l) h = ground (arith, take_out-none a l)

  Moved-here : (a x : A) (l : List A) → x ≡ a → Moved a (x ∷ l) l
  unfolding contains
  Moved-here a x l h = record { members = λ y. cc; measure = refl; once = λ d. rw (← h) d }

  Moved-there :
      (a x : A) (l rest : List A) → e.beq x a ≡ false → Moved a l rest → Moved a (x ∷ l) (x ∷ rest)
  unfolding contains
  Moved-there a x l rest h m = record {
    members = λ y. ground (arith, m.members y);
    measure = omega (arith, m.measure);
    once = λ d. ground (arith, m.members x, m.once d.1, e.beq_iff x a, e.beq_iff a x);
  }

  pub take_out-some :
      (a : A) (l : List A)
      → contains a l ≡ true
      → (rest : List A) × (take_out a l ≡ some rest) × Moved a l rest
  unfolding take_out contains
  take_out-some a [] h = cc
  take_out-some a (x ∷ l) h = elim (beq-cases x a) [
    | inl same ↦ (l, rw ((e.beq_iff x a).1 same), Moved-here a x l same)
    | inr n ↦
        let (rest, found, moved) = take_out-some a l (rw n.1 at h) in
        (x ∷ rest, rw (n.1, found), Moved-there a x l rest n.1 moved)
  ]

  Popped-one : (x : A) → Popped (x ∷ []) [] x
  unfolding contains
  Popped-one x = record {
    members = λ d y. ground arith;
    measure = refl;
    once = λ d. tt;
    member = ground (arith, beq_refl x);
  }

  Popped-more :
      (x oldest : A) (l rest : List A) → Popped l rest oldest → Popped (x ∷ l) (x ∷ rest) oldest
  unfolding contains
  Popped-more x oldest l rest p = record {
    members = λ d y. ground (arith, p.members d.1 y, p.member, e.beq_iff oldest y, e.beq_iff x y);
    measure = omega (arith, p.measure);
    once = λ d. ground (arith, p.members d.1 x, p.once d.1);
    member = ground (arith, p.member);
  }

  pop_back_step :
      (x : A) (l rest : List A) (oldest : A)
      → pop_back l ≡ some (rest, oldest)
      → pop_back (x ∷ l) ≡ some (x ∷ rest, oldest)
  unfolding pop_back
  pop_back_step x l rest oldest h = rw (h, pop_back)

  pub pop_back-some :
      (x : A) (l : List A)
      → (rest : List A) × (oldest : A) × (pop_back (x ∷ l) ≡ some (rest, oldest))
        × Popped (x ∷ l) rest oldest
  pop_back-some x [] = ([], x, unfold pop_back in refl, Popped-one x)
  pop_back-some x (y ∷ l) =
      let (rest, oldest, found, popped) = pop_back-some y l in
      (
        x ∷ rest,
        oldest,
        pop_back_step x (y ∷ l) rest oldest found,
        Popped-more x oldest (y ∷ l) rest popped,
      )

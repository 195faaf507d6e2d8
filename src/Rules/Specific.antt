-- ===== src/Rules/Specific.antt =====
-- crates/clash-core/src/rules.rs: which record decides for a domain.
use rust_clash.Common.{
  ℕ, ◌+◌, ◌≤◌, ◌≡◌, refl, ◌∙◌, Bool, true, false, not, ◌||◌, Option, none, some, List, [], ◌∷◌,
  ◌++◌, arith, ==_self, ◌==◌, if◌then◌else◌, length, lookup, list_eq, nat_eq, All, Option-cases,
  inl, inr,
}
use mathlib.Core.Option.{get_or}
use mathlib.Core.List.{append_assoc}
use Prim.Native.Nat.{bit_and}
use rust_clash.Text.{Str, is_empty}
use rust_clash.Dns.{split, drop_empty}
use rust_clash.Rules.{
  RuleAction, from_u8, Records, Walk, walk, walk_step, best_after, match_domain_uncached,
}

-- The key of a list of labels.
pub key : List Str → Str
key [] = []
key (label ∷ []) = label
key (label ∷ next ∷ labels) = key (next ∷ labels) ++ (1 ∷ label)

-- The first record that applies, from the whole name on by leaving out the first label: one for
-- the labels that are left, and marked as a suffix unless they are the whole name.
pub deciding : Records → Bool → List Str → Option ℕ
unfolding key
deciding records whole [] = none
deciding records whole (label ∷ labels) = elim (lookup (key (label ∷ labels)) records) [
  | none ↦ deciding records false labels
  | some packed ↦
      let shorter = deciding records false labels in
      if whole || not (bit_and packed 0x80 == 0) then some packed else shorter
]

pub action_of : Option ℕ → RuleAction
action_of none = RuleAction.proxy
action_of (some packed) = get_or (from_u8 (bit_and packed 0x7f)) RuleAction.proxy

best_of : Option ℕ → Option RuleAction
best_of none = none
best_of (some packed) = from_u8 (bit_and packed 0x7f)

abbrev AllFull : List Str → Type 0
AllFull = All (λ s. is_empty s ≡ false)

drop_empty-AllFull : (parts : List Str) → AllFull (drop_empty parts)
unfolding drop_empty is_empty
drop_empty-AllFull [] = tt
drop_empty-AllFull ([] ∷ parts) = drop_empty-AllFull parts
drop_empty-AllFull ((c ∷ part) ∷ parts) = (refl, drop_empty-AllFull parts)

is_empty-append : (s t : Str) → is_empty t ≡ false → is_empty (s ++ t) ≡ false
unfolding is_empty
is_empty-append [] t h = h
is_empty-append (c ∷ s) t h = refl

is_empty-key :
    (label : Str) (labels : List Str)
    → AllFull (label ∷ labels)
    → is_empty (key (label ∷ labels)) ≡ false
unfolding key is_empty
is_empty-key label [] h = h.0
is_empty-key label (next ∷ labels) h = is_empty-append (key (next ∷ labels)) (1 ∷ label) refl

best_after_lem :
    (records : Records) (whole : Bool) (label : Str) (labels : List Str)
    → best_after records whole (key (label ∷ labels)) (best_of (deciding records false labels))
      ≡ best_of (deciding records whole (label ∷ labels))
unfolding best_after deciding best_of
best_after_lem records whole label labels =
    elim (Option-cases (lookup (key (label ∷ labels)) records)) [
      | inl h ↦ rw (best_after, deciding, h) refl
      | inr (packed, h) ↦ rw (best_after, deciding, h) (ground arith)
    ]

-- One round, from the string and the count that it makes.
step_lem :
    (records : Records) (total : ℕ) (label : Str) (labels : List Str) (w : Walk)
    → (if is_empty w.sb then w.sb else w.sb ++ (1 ∷ [])) ++ label ≡ key (label ∷ labels)
    → w.acc + 1 ≡ length (label ∷ labels)
    → w.best ≡ best_of (deciding records false labels)
    → walk_step records total label w ≡ record {
      sb = key (label ∷ labels);
      acc = length (label ∷ labels);
      best = best_of (deciding records (length (label ∷ labels) == total) (label ∷ labels));
    }
unfolding walk_step
step_lem records total label labels w e n b =
    rw (e, n, b, best_after_lem records (length (label ∷ labels) == total) label labels) refl

walk_next :
    (records : Records) (total : ℕ) (label : Str) (labels : List Str)
    → walk records total (label ∷ labels)
      ≡ walk_step records total label (walk records total labels)
unfolding walk
walk_next records total label labels = refl

walk_none :
    (records : Records) (total : ℕ)
    → walk records total []
      ≡ record { sb = key []; acc = 0; best = best_of (deciding records (0 == total) []) }
unfolding walk key deciding best_of
walk_none records total = refl

first :
    (label : Str)
    → (if is_empty (key []) then key [] else key [] ++ (1 ∷ [])) ++ label ≡ key (label ∷ [])
unfolding key is_empty
first label = refl

later :
    (label next : Str) (labels : List Str)
    → AllFull (next ∷ labels)
    → (let sb = key (next ∷ labels) in (if is_empty sb then sb else sb ++ (1 ∷ [])) ++ label)
      ≡ key (label ∷ next ∷ labels)
unfolding key
later label next labels full =
    rw (is_empty-key next labels full) (append_assoc (key (next ∷ labels)) (1 ∷ []) label)

nothing :
    (records : Records) (whole : Bool)
    → best_of (deciding records whole []) ≡ best_of (deciding records false [])
unfolding deciding
nothing records whole = refl

-- The state after the loop over `labels`, which are not more than all.
walk_lem :
    (records : Records) (total : ℕ) (labels : List Str)
    → AllFull labels
    → length labels ≤ total
    → walk records total labels ≡ record {
      sb = key labels;
      acc = length labels;
      best = best_of (deciding records (length labels == total) labels);
    }
walk_lem records total [] full h = walk_none records total
walk_lem records total (label ∷ []) full h =
    walk_next records total label []
    ∙ rw (walk_none records total)
        (step_lem records total label [] _ (first label) refl (nothing records (0 == total)))
walk_lem records total (label ∷ next ∷ labels) full h =
    let before = walk_lem records total (next ∷ labels) full.1 (omega arith) in
    let part : (length (next ∷ labels) == total) ≡ false = ground arith in
    walk_next records total label (next ∷ labels)
    ∙ rw before (
        step_lem records total label (next ∷ labels) _ (later label next labels full.1)
          (omega arith) (rw part refl))

action_lem : (decided : Option ℕ) → get_or (best_of decided) RuleAction.proxy ≡ action_of decided
unfolding best_of action_of
action_lem none = refl
action_lem (some packed) = refl

by_labels :
    (records : Records) (labels : List Str)
    → (if is_empty labels
        then RuleAction.proxy
        else get_or
            (best_of (deciding records (length labels == length labels) labels))
            RuleAction.proxy)
      ≡ action_of (deciding records true labels)
unfolding is_empty deciding action_of
by_labels records [] = refl
by_labels records (label ∷ labels) =
    rw (==_self (length (label ∷ labels))) (action_lem (deciding records true (label ∷ labels)))

-- The action of a domain is that of the first record that applies, from the whole name on to
-- shorter and shorter suffixes: one for these labels, and marked as a suffix unless the labels are
-- the whole name; without one, or with one of no known action, it is to go through the proxy.
pub match_domain_uncached_lem :
    (records : Records) (domain : Str)
    → match_domain_uncached records domain
      ≡ action_of (deciding records true (drop_empty (split b'.' domain)))
unfolding match_domain_uncached
match_domain_uncached_lem records domain =
    let labels = drop_empty (split b'.' domain) in
    let after =
      walk_lem records (length labels) labels (drop_empty-AllFull (split b'.' domain))
        (omega arith) in
    rw after (by_labels records labels)

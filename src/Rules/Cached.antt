-- ===== src/Rules/Cached.antt =====
-- crates/clash-core/src/rules.rs: the cache in front of the database changes no decision.
use rust_clash.Common.{
  ℕ, ◌≡◌, refl, Option, none, some, List, Option-cases, Bool-cases, inl, inr, if◌then◌else◌,
}
use rust_clash.Text.{Str, is_empty}
use rust_clash.Net.{IpAddr}
use rust_clash.Utils.{domain_to_ascii}
use rust_clash.TtlLru.{Entry, get}
use rust_clash.TtlLru.Bounds.{IsValid, KeysLaw, set-IsValid, get-IsValid}
use rust_clash.Rules.{
  RuleAction, Records, RuleDb, match_domain_uncached, match_cached, match_domain, action_for_ip,
}

-- A database whose cache is valid and holds only what the records say.
abbrev pub IsSound : RuleDb → Type 0
IsSound db = IsValid (λ domain action. action ≡ match_domain_uncached db.records domain) db.cache

-- What `match_domain` answers without a cache.
pub plain : (Str → Option IpAddr) → (Str → Option Str) → Records → Str → RuleAction
unfolding domain_to_ascii is_empty
plain parse_ip idna records name =
    let domain = domain_to_ascii idna name in
    if is_empty domain then RuleAction.proxy else elim (parse_ip domain) [
      | some ip ↦ action_for_ip ip
      | none ↦ match_domain_uncached records domain
    ]

module _ (parse_ip : Str → Option IpAddr) (idna : Str → Option Str)
    (keys : List (Str × Entry RuleAction) → List Str) where
  match_cached_lem :
      (seen now later : ℕ) (db : RuleDb) (domain : Str)
      → KeysLaw keys
      → IsSound db
      → ((match_cached parse_ip idna keys seen now later db domain).0
          ≡ match_domain_uncached db.records domain)
        × ((match_cached parse_ip idna keys seen now later db domain).1.records ≡ db.records)
        × IsSound (match_cached parse_ip idna keys seen now later db domain).1
  unfolding match_cached
  match_cached_lem seen now later db domain law sound =
      let holds : Str → RuleAction → Type 0 =
        λ d action. action ≡ match_domain_uncached db.records d in
      let (kept, right) = get-IsValid holds seen db.cache domain sound in
      elim (Option-cases (get seen db.cache domain).0) [
        | inl h ↦
            rw (match_cached, h)
              (
                refl,
                refl,
                set-IsValid keys holds now later (get seen db.cache domain).1 domain
                    (match_domain_uncached db.records domain) none law kept refl,
              )
        | inr (action, h) ↦ rw (match_cached, h) (right action h, refl, kept)
      ]

  -- With a cache that holds only what the records say, and keys that are listed once each,
  -- match_domain answers at all times what it would without the cache, and leaves such a cache and
  -- the same records.
  pub match_domain_lem :
      (seen now later : ℕ) (db : RuleDb) (name : Str)
      → KeysLaw keys
      → IsSound db
      → ((match_domain parse_ip idna keys seen now later db name).0
          ≡ plain parse_ip idna db.records name)
        × ((match_domain parse_ip idna keys seen now later db name).1.records ≡ db.records)
        × IsSound (match_domain parse_ip idna keys seen now later db name).1
  unfolding match_domain plain
  match_domain_lem seen now later db name law sound =
      let domain = domain_to_ascii idna name in
      elim (Bool-cases (is_empty domain)) [
        | inl t ↦ rw (match_domain, plain, t) (refl, refl, sound)
        | inr f ↦ elim (Option-cases (parse_ip domain)) [
          | inl h ↦
              rw (match_domain, plain, f, h) (match_cached_lem seen now later db domain law sound)
          | inr (ip, h) ↦ rw (match_domain, plain, f, h) (refl, refl, sound)
        ]
      ]

-- ===== src/Rules.antt =====
-- crates/clash-core/src/rules.rs: the rule database and the decisions made with it. The parser of
-- `IpAddr` is the argument `parse_ip`, the crate `idna` the argument `idna`, and the order in which
-- the cache lists its keys `keys`. A key of the database is a string whose labels, the last one
-- first, are joined by U+0001.
mod Specific
mod Cached
mod HostPort
mod Ranges
mod Tests
use rust_clash.Common.{
  ℕ, zero, suc, ◌+◌, ◌-◌, ◌*◌, ◌%◌, ◌/◌, ◌^◌, Bool, true, false, not, ◌&&◌, ◌||◌, Option, none,
  some, List, [], ◌∷◌, ◌++◌, ltb, leb, ◌==◌, if◌then◌else◌, length, take, drop, at, lookup,
  contains, list_eq, nat_eq, list_beq,
}
use mathlib.Core.Option.{get_or}
use Prim.Native.Nat.{bit_and}
use rust_clash.Text.{Str, trim, trim_start_matches, trim_end_matches, is_empty, codes}
use rust_clash.Utils.{domain_to_ascii}
use rust_clash.Net.{Ipv4Addr, IpAddr}
use rust_clash.Dns.{split, drop_empty}
use rust_clash.TtlLru.{TtlLru, Entry, get, set}

pub data RuleAction : Type 0 where
  reject : RuleAction
  direct : RuleAction
  proxy : RuleAction

unfoldable pub from_u8 : ℕ → Option RuleAction
from_u8 v =
    if v == 1
    then some RuleAction.reject
    else if v == 2
    then some RuleAction.direct
    else if v == 3
    then some RuleAction.proxy
    else none

abbrev pub Records : Type 0
Records = List (Str × ℕ)

abbrev sep : ℕ
sep = 1

-- `sb`, `acc` and `best` of the loop.
pub record Walk : Type 0 where
  pub sb : Str
  pub acc : ℕ
  pub best : Option RuleAction

-- `best` after a round that made the key `sb`, of all labels when `whole`.
unfoldable pub best_after : Records → Bool → Str → Option RuleAction → Option RuleAction
unfolding lookup from_u8
best_after records whole sb best = elim (lookup sb records) [
  | none ↦ best
  | some packed ↦
      if not (bit_and packed 0x80 == 0) || whole then from_u8 (bit_and packed 0x7f) else best
]

-- One round, at the label `label`, when there are `total` labels.
unfoldable pub walk_step : Records → ℕ → Str → Walk → Walk
unfolding is_empty best_after
walk_step records total label w =
    let sb = (if is_empty w.sb then w.sb else w.sb ++ (sep ∷ [])) ++ label in
    let acc = w.acc + 1 in
    record { sb = sb; acc = acc; best = best_after records (acc == total) sb w.best }

-- The loop, from the last label to the first.
unfoldable pub walk : Records → ℕ → List Str → Walk
unfolding walk_step
walk records total [] = record { sb = []; acc = 0; best = none }
walk records total (label ∷ labels) = walk_step records total label (walk records total labels)

unfoldable pub match_domain_uncached : Records → Str → RuleAction
unfolding drop_empty split walk is_empty
match_domain_uncached records domain =
    let labels = drop_empty (split b'.' domain) in
    if is_empty labels
    then RuleAction.proxy
    else get_or (walk records (length labels) labels).best RuleAction.proxy

-- `Ipv4Addr::is_loopback` and `is_private`.
unfoldable pub is_local : Ipv4Addr → Bool
is_local ip =
    ip.a == 127
    || ip.a == 10
    || (ip.a == 172 && leb 16 ip.b && leb ip.b 31)
    || (ip.a == 192 && ip.b == 168)

-- `Ipv6Addr::is_loopback`, `is_unicast_link_local` and `is_multicast`.
unfoldable pub is_local6 : List ℕ → Bool
is_local6 b =
    list_beq b (0 ∷ 0 ∷ 0 ∷ 0 ∷ 0 ∷ 0 ∷ 0 ∷ 0 ∷ 0 ∷ 0 ∷ 0 ∷ 0 ∷ 0 ∷ 0 ∷ 0 ∷ 1 ∷ [])
    || (at b 0 == 0xfe && bit_and (at b 1) 0xc0 == 0x80)
    || at b 0 == 0xff

unfoldable pub action_for_ip : IpAddr → RuleAction
unfolding is_local is_local6
action_for_ip (IpAddr.v4 ip) =
    if is_local ip
      || (ip.a == 169 && ip.b == 254)
      || (ip.a == 100 && leb 64 ip.b && leb ip.b 127)
      || (ip.a == 0 && ip.b == 0 && ip.c == 0 && ip.d == 0)
    then RuleAction.direct
    else RuleAction.proxy
action_for_ip (IpAddr.v6 b) =
    if is_local6 b || bit_and (at b 0) 0xfe == 0xfc then RuleAction.direct else RuleAction.proxy

-- `find` and `rfind` of one character, and how often it occurs.
unfoldable pub find : ℕ → Str → Option ℕ
find c [] = none
find c (x ∷ s) =
    let later : Option ℕ = elim (find c s) [ none ↦ none | some i ↦ some (suc i) ] in
    if x == c then some 0 else later

unfoldable pub rfind : ℕ → Str → Option ℕ
rfind c [] = none
rfind c (x ∷ s) = elim (rfind c s) [
  | none ↦ if x == c then some 0 else none
  | some i ↦ some (suc i)
]

unfoldable pub count : ℕ → Str → ℕ
count c [] = 0
count c (x ∷ s) = let rest = count c s in if x == c then suc rest else rest

unfoldable pub starts_with : ℕ → Str → Bool
starts_with c [] = false
starts_with c (x ∷ s) = x == c

-- The host in brackets, when `end` is where the closing one stands.
unfoldable pub split_bracketed : Str → ℕ → Option (Str × Str)
unfolding is_empty
split_bracketed authority end =
    let port = drop (end + 2) authority in
    if ltb (end + 1) (length authority) && at authority (end + 1) == b':' && not (is_empty port)
    then some (take (end - 1) (drop 1 authority), port)
    else none

unfoldable pub split_plain : Str → ℕ → Option (Str × Str)
unfolding is_empty
split_plain authority idx =
    let port = drop (idx + 1) authority in
    if ltb 0 idx && not (is_empty port) then some (take idx authority, port) else none

unfoldable pub try_split_host_port : Str → Option (Str × Str)
unfolding starts_with find rfind count split_bracketed split_plain
try_split_host_port authority =
    if starts_with b'[' authority
    then elim (find b']' authority) [ none ↦ none | some end ↦ split_bracketed authority end ]
    else if count b':' authority == 1
    then elim (rfind b':' authority) [ none ↦ none | some idx ↦ split_plain authority idx ]
    else none

unfoldable pub join_host_port : Str → Str → Str
unfolding contains starts_with
join_host_port host port =
    if contains b':' host && not (starts_with b'[' host)
    then (b'[' ∷ host) ++ (b']' ∷ b':' ∷ port)
    else host ++ (b':' ∷ port)

abbrev bracket : ℕ → Bool
bracket c = c == b'[' || c == b']'

abbrev trim_brackets : Str → Str
trim_brackets s = trim_end_matches bracket (trim_start_matches bracket s)

unfoldable pub with_port : Str → Str → Option Str
unfolding trim trim_start_matches trim_end_matches try_split_host_port join_host_port is_empty
with_port authority default_port =
    let text = trim authority in
    let host = trim_brackets text in
    if is_empty text then none else elim (try_split_host_port text) [
      | some (h, p) ↦ some (join_host_port h p)
      | none ↦ if is_empty host then none else some (join_host_port host default_port)
    ]

pub record RuleDb : Type 0 where
  pub records : Records
  pub cache : TtlLru RuleAction

module _ (parse_ip : Str → Option IpAddr) (idna : Str → Option Str)
    (keys : List (Str × Entry RuleAction) → List Str) where
  -- The lookup behind the cache, at the times that its calls read.
  unfoldable pub match_cached : ℕ → ℕ → ℕ → RuleDb → Str → RuleAction × RuleDb
  unfolding get set match_domain_uncached
  match_cached seen now later db domain =
      let (found, cache) = get seen db.cache domain in
      elim found [
        | some action ↦ (action, record { records = db.records; cache = cache })
        | none ↦
            let action = match_domain_uncached db.records domain in
            (
              action,
              record { records = db.records; cache = set keys now later cache domain action none },
            )
      ]

  unfoldable pub match_domain : ℕ → ℕ → ℕ → RuleDb → Str → RuleAction × RuleDb
  unfolding domain_to_ascii is_empty action_for_ip match_cached
  match_domain seen now later db name =
      let domain = domain_to_ascii idna name in
      if is_empty domain then (RuleAction.proxy, db) else elim (parse_ip domain) [
        | some ip ↦ (action_for_ip ip, db)
        | none ↦ match_cached seen now later db domain
      ]

  unfoldable pub decide_route : ℕ → ℕ → ℕ → RuleDb → Str → RuleAction × RuleDb
  unfolding try_split_host_port trim trim_end_matches trim_start_matches action_for_ip match_domain
  decide_route seen now later db host_port =
      let host : Str = elim (try_split_host_port host_port) [
        | none ↦ host_port
        | some (h, p) ↦ h
      ] in
      let bare = trim_brackets (trim host) in
      elim (parse_ip bare) [
        | some ip ↦ (action_for_ip ip, db)
        | none ↦ match_domain seen now later db bare
      ]

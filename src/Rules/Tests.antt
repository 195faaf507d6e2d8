-- ===== src/Rules/Tests.antt =====
-- crates/clash-core/src/rules.rs: a small database.
use rust_clash.Common.{◌≡◌, refl, true, Option, none, some, [], ◌∷◌, contains, arith, if◌then◌else◌}
use rust_clash.Text.{Str, codes, is_empty}
use rust_clash.Net.{IpAddr}
use rust_clash.TtlLru.{new}
use rust_clash.TtlLru.Bounds.{new-IsValid}
use rust_clash.TtlLru.Order.{list_keys, list_keys-KeysLaw}
use rust_clash.Rules.{
  RuleAction, Records, RuleDb, match_domain, match_domain_uncached, action_for_ip,
  try_split_host_port, join_host_port, starts_with,
}
use rust_clash.Rules.Specific.{deciding, action_of, match_domain_uncached_lem}
use rust_clash.Rules.Cached.{IsSound, plain, match_domain_lem}
use rust_clash.Rules.HostPort.{try_split_host_port-join_host_port}
use rust_clash.Rules.Ranges.{is_direct, to_u32, action_for_ip_lem}
use rust_clash.Dns.{split, drop_empty}

-- `com` goes direct with all below it, `ads.com` alone is rejected, `cdn.ads.com` goes through the
-- proxy with all below it.
abbrev records : Records
records =
    (codes "com", 0x82) ∷ (codes "com\u{1}ads", 0x01) ∷ (codes "com\u{1}ads\u{1}cdn", 0x83) ∷ []

abbrev db : RuleDb
db = record { records = records; cache = new 4096 }

suffix_run : match_domain_uncached records (codes "www.example.com") ≡ RuleAction.direct
unfolding match_domain_uncached
suffix_run = refl

exact_run : match_domain_uncached records (codes "ads.com") ≡ RuleAction.reject
unfolding match_domain_uncached
exact_run = refl

below_run : match_domain_uncached records (codes "x.ads.com") ≡ RuleAction.direct
unfolding match_domain_uncached
below_run = refl

match_domain_uncached_lem_example :
    match_domain_uncached records (codes "a.cdn.ads.com")
    ≡ action_of (deciding records true (drop_empty (split b'.' (codes "a.cdn.ads.com"))))
match_domain_uncached_lem_example = match_domain_uncached_lem records (codes "a.cdn.ads.com")

abbrev no_ip : Str → Option IpAddr
no_ip s = none

abbrev no_idna : Str → Option Str
no_idna s = none

match_domain_lem_example :
    ((match_domain no_ip no_idna list_keys 5 6 7 db (codes "ads.com")).0
      ≡ plain no_ip no_idna records (codes "ads.com"))
    × ((match_domain no_ip no_idna list_keys 5 6 7 db (codes "ads.com")).1.records ≡ records)
    × IsSound (match_domain no_ip no_idna list_keys 5 6 7 db (codes "ads.com")).1
match_domain_lem_example =
    match_domain_lem no_ip no_idna list_keys 5 6 7 db (codes "ads.com") list_keys-KeysLaw
      (new-IsValid _ 4096)

try_split_host_port-join_host_port_example :
    try_split_host_port (join_host_port (codes "::1") (codes "80")) ≡ some (codes "::1", codes "80")
unfolding starts_with is_empty contains
try_split_host_port-join_host_port_example =
    try_split_host_port-join_host_port (codes "::1") (codes "80") refl refl refl refl refl

action_for_ip_lem_example : action_for_ip (IpAddr.v4 (record { a = 172; b = 20; c = 1; d = 9 })) ≡ (
    if is_direct (to_u32 (record { a = 172; b = 20; c = 1; d = 9 }))
    then RuleAction.direct
    else RuleAction.proxy)
action_for_ip_lem_example =
    action_for_ip_lem (record { a = 172; b = 20; c = 1; d = 9 })
      (omega arith, (omega arith, (omega arith, (omega arith, tt))))

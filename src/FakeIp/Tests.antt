-- ===== src/FakeIp/Tests.antt =====
-- Runs of the fake address pool of crates/clash-core/src/dns.rs, and its theorems at concrete
-- inputs.
use rust_clash.Common.{
  ◌≡◌, refl, true, false, [], ◌∷◌, Option, none, some, lookup, insert, remove, list_eq, nat_eq,
}
use rust_clash.Net.{ip_eq}
use rust_clash.Text.{Str, codes}
use rust_clash.Utils.{domain_to_ascii}
use rust_clash.FakeIp.{
  FakeIpPool, new, ip_of_bits, take_out, touch, pop_back, evict, advance, is_skipped, scan, assign,
  make_room, lookup_ascii, lookup_avoiding, lookup_host, lookback,
}
use rust_clash.FakeIp.Invariant.{IsValid, new-IsValid}
use rust_clash.FakeIp.Operations.{here, next, look, Reach-IsValid}
use rust_clash.FakeIp.Answer.{fallback, lookback-lookup_host}

program : Unit {0}
unfolding new ip_of_bits take_out touch pop_back evict advance is_skipped scan assign make_room
    lookup_ascii lookup_avoiding lookup_host lookback lookup insert remove domain_to_ascii
program = tt

abbrev no_idna : Str → Option Str
no_idna s = none

abbrev host : Str
host = codes "Example.com."

abbrev ascii : Str
ascii = codes "example.com"

abbrev pool : FakeIpPool
pool = record {
  host_to_ip = (ascii, fallback) ∷ [];
  ip_to_host = (fallback, ascii) ∷ [];
  lru = ascii ∷ [];
  next = 5;
}

first_lookup : lookup_host no_idna host new ≡ (fallback, pool)
unfolding program
first_lookup = refl

pool-IsValid : IsValid 8192 pool
unfolding program
pool-IsValid = Reach-IsValid no_idna (next here (look (λ ip. false) host))

Reach-IsValid_example : IsValid 8192 (lookup_avoiding no_idna (λ ip. true) host new).1
Reach-IsValid_example = Reach-IsValid no_idna (next here (look (λ ip. true) host))

lookback-lookup_host_example :
    (lookback (lookup_host no_idna host new).0 (lookup_host no_idna host new).1).0
    ≡ some (domain_to_ascii no_idna host)
lookback-lookup_host_example = lookback-lookup_host no_idna host new new-IsValid

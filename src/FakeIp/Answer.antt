-- ===== src/FakeIp/Answer.antt =====
-- What the fake address pool of crates/clash-core/src/dns.rs answers.
use rust_clash.Common.{
  ℕ, ◌<◌, ◌≡◌, ◌≢◌, ◌∙◌, ◌⊎◌, inl, inr, refl, ap, true, false, Bool, List, Option, none, some,
  arith, Option-cases, lookup, lookup-insert_self, lookup-remove_self, lookup-remove_ne, length,
  contains, ◌≤◌, [], list_eq, nat_eq,
}
use rust_clash.Net.{Ipv4Addr, ip_eq}
use rust_clash.Text.{Str}
use rust_clash.Utils.{domain_to_ascii}
use rust_clash.FakeIp.{
  FakeIpPool, take_out, touch, pop_back, evict, make_room, assign, scan, rounds, is_skipped,
  ip_of_bits, lookup_ascii, lookup_avoiding, lookup_host, lookback,
}
use rust_clash.FakeIp.Window.{slot, scan-none}
use rust_clash.FakeIp.Invariant.{IsValid}
use rust_clash.FakeIp.Operations.{oldest_of, make_room-IsValid}
use rust_clash.FakeIp.Total.{not_all_skipped}

-- The host and the address lead to each other.
pub record Registered (h : Str) (ip : Ipv4Addr) (pool : FakeIpPool) : Type 0 where
  pub address : lookup h pool.host_to_ip ≡ some ip
  pub name : lookup ip pool.ip_to_host ≡ some h

touch-Registered :
    (h k : Str) (ip : Ipv4Addr) (pool : FakeIpPool)
    → Registered h ip pool
    → Registered h ip (touch k pool)
unfolding touch
touch-Registered h k ip pool r = elim (Option-cases (take_out k pool.lru)) [
  | inl e ↦ rw (e, touch) r
  | inr (rest, e) ↦ rw (e, touch) (record { address = r.address; name = r.name })
]

-- The address after the loop, when no round found one.
abbrev pub fallback : Ipv4Addr
fallback = record { a = 198; b = 18; c = 0; d = 4 }

-- Every address that the scan tries is skipped: it is reserved, taken or in use.
abbrev pub AllSkipped : (Ipv4Addr → Bool) → FakeIpPool → Type 0
AllSkipped in_use pool =
    (k : ℕ) → k < 65530 → is_skipped in_use pool.ip_to_host (ip_of_bits (slot pool.next k)) ≡ true

assign_cases :
    (in_use : Ipv4Addr → Bool) (h : Str) (pool : FakeIpPool) (r : Option Ipv4Addr × ℕ)
    → (r.0 ≡ none → AllSkipped in_use pool)
    → Registered h (assign h r pool).0 (assign h r pool).1
      ⊎ ((assign h r pool).0 ≡ fallback) × AllSkipped in_use pool
unfolding assign
assign_cases in_use h pool (none, next) skipped = inr (refl, skipped refl)
assign_cases in_use h pool (some ip, next) skipped = inl (record {
  address = lookup-insert_self h ip pool.host_to_ip;
  name = lookup-insert_self ip h pool.ip_to_host;
})

-- On a valid pool `lookup_avoiding` answers an address that is afterwards registered for the host
-- in both maps; or, for a new host only, 198.18.0.4, when each of the 65530 addresses that it
-- tries, after the eviction, is reserved, taken or in use.
pub lookup_ascii_cases :
    (in_use : Ipv4Addr → Bool) (h : Str) (pool : FakeIpPool)
    → IsValid 8192 pool
    → Registered h (lookup_ascii in_use h pool).0 (lookup_ascii in_use h pool).1
      ⊎ ((lookup_ascii in_use h pool).0 ≡ fallback)
        × (lookup h pool.host_to_ip ≡ none)
        × AllSkipped in_use (make_room pool)
unfolding lookup_ascii
lookup_ascii_cases in_use h pool v = elim (Option-cases (lookup h pool.host_to_ip)) [
  | inl fresh ↦
      let roomy = make_room pool in
      let v' = make_room-IsValid pool v in
      let skipped : (scan rounds in_use roomy.ip_to_host roomy.next).0 ≡ none
          → AllSkipped in_use roomy =
        λ e k lt. scan-none in_use roomy.ip_to_host rounds roomy.next k v'.window e lt in
      rw (fresh, lookup_ascii)
        (elim (assign_cases in_use h roomy _ skipped) [
          | inl r ↦ inl r
          | inr (e, s) ↦ inr (e, refl, s)
        ])
  | inr (ip, there) ↦
      let (k, back, same) = v.inverse.forward h ip there in
      rw (there, lookup_ascii)
        (inl
          (touch-Registered h h ip pool (record { address = there; name = back ∙ ap some same })))
]

-- When at most 55536 addresses are in use, `lookup_ascii` never falls back: on a valid pool, also a
-- full one, the host and the address that it answers lead to each other afterwards.
pub lookup_ascii-Registered :
    (in_use : Ipv4Addr → Bool) (used : List Ipv4Addr) (h : Str) (pool : FakeIpPool)
    → ((ip : Ipv4Addr) → in_use ip ≡ true → contains ip used ≡ true)
    → length used ≤ 55536
    → IsValid 8192 pool
    → Registered h (lookup_ascii in_use h pool).0 (lookup_ascii in_use h pool).1
lookup_ascii-Registered in_use used h pool listed less v =
    elim (lookup_ascii_cases in_use h pool v) [
      | inl r ↦ r
      | inr (e, fresh, skipped) ↦
          let v' = make_room-IsValid pool v in
          absurd (
            not_all_skipped in_use used listed (make_room pool).ip_to_host (make_room pool).next
              v'.window v'.ips (omega (arith, v'.paired, v'.bounded)) less skipped)
    ]

unused-Registered :
    (h : Str) (pool : FakeIpPool)
    → IsValid 8192 pool
    → Registered h (lookup_ascii (λ ip. false) h pool).0 (lookup_ascii (λ ip. false) h pool).1
unused-Registered h pool =
    lookup_ascii-Registered (λ ip. false) [] h pool (λ ip e. cc) (omega arith)

-- `FakeIpPool::lookup` never falls back: on a valid pool, also a full one, the address that it
-- answers leads back to the host in its ASCII form.
pub lookback-lookup_host :
    (idna : Str → Option Str) (host : Str) (pool : FakeIpPool)
    → IsValid 8192 pool
    → (lookback (lookup_host idna host pool).0 (lookup_host idna host pool).1).0
      ≡ some (domain_to_ascii idna host)
unfolding lookup_host lookback
lookback-lookup_host idna host pool v =
    rw ((unused-Registered (domain_to_ascii idna host) pool v).name, lookback) refl

again :
    (in_use : Ipv4Addr → Bool) (h : Str) (ip : Ipv4Addr) (pool : FakeIpPool)
    → lookup h pool.host_to_ip ≡ some ip
    → (lookup_ascii in_use h pool).0 ≡ ip
unfolding lookup_ascii
again in_use h ip pool e = rw (e, lookup_ascii) refl

-- After `lookup` on a valid pool, `lookup_avoiding` for a host with the same ASCII form answers the
-- same address, whatever is then in use.
lookup_avoiding-lookup_host :
    (idna : Str → Option Str) (in_use : Ipv4Addr → Bool) (host other : Str) (pool : FakeIpPool)
    → IsValid 8192 pool
    → domain_to_ascii idna other ≡ domain_to_ascii idna host
    → (lookup_avoiding idna in_use other (lookup_host idna host pool).1).0
      ≡ (lookup_host idna host pool).0
unfolding lookup_host lookup_avoiding
lookup_avoiding-lookup_host idna in_use host other pool v same =
    rw same (again in_use _ _ _ (unused-Registered (domain_to_ascii idna host) pool v).address)

-- On a valid pool that is not empty, `evict` takes the host at the back of the queue off it and
-- forgets its address, and every other host keeps its own.
evict_lem :
    (n : ℕ) (pool : FakeIpPool)
    → IsValid n pool
    → 0 < length pool.host_to_ip
    → (rest : List Str) × (oldest : Str) × (pop_back pool.lru ≡ some (rest, oldest))
      × ((evict pool).lru ≡ rest)
      × (lookup oldest (evict pool).host_to_ip ≡ none)
      × ((h : Str) → oldest ≢ h → lookup h (evict pool).host_to_ip ≡ lookup h pool.host_to_ip)
unfolding evict
evict_lem n pool v pos =
    let (rest, k, ip, found, popped, there) = oldest_of n pool v pos in
    (
      rest,
      k,
      found,
      rw (found, evict) (rw (there, evict) refl),
      rw (found, evict) (rw (there, evict) (lookup-remove_self k pool.host_to_ip)),
      λ h ne. rw (found, evict) (rw (there, evict) (lookup-remove_ne k h pool.host_to_ip ne)),
    )

-- ===== src/FakeIp/Operations.antt =====
-- That `lookup_avoiding` and `lookback` of crates/clash-core/src/dns.rs keep the pool valid.
use rust_clash.Common.{
  ℕ, suc, ◌<◌, ◌≡◌, refl, sym, ap, ◌∙◌, Bool, List, [], ◌∷◌, Option, none, some, arith, leb, length,
  list_eq, nat_eq, Option-cases, Bool-cases, inl, inr, lookup, lookup-remove, some_of_is_some,
}
use rust_clash.Net.{Ipv4Addr, ip_eq}
use rust_clash.Text.{Str}
use rust_clash.FakeIp.{
  FakeIpPool, new, pop_back, evict, make_room, assign, rounds, lookup_ascii, lookback,
  lookup_avoiding,
}
use rust_clash.Utils.{domain_to_ascii}
use rust_clash.FakeIp.Lru.{Popped, pop_back-some}
use rust_clash.FakeIp.Window.{InWindow, IsFound, scan-IsFound}
use rust_clash.FakeIp.Invariant.{
  IsValid, new-IsValid, touch-IsValid, move-IsValid, drop-IsValid, add-IsValid, weaken-IsValid,
}

-- The queue of a pool that is not empty has an oldest host, which has an address.
pub oldest_of :
    (n : ℕ) (pool : FakeIpPool)
    → IsValid n pool
    → 0 < length pool.host_to_ip
    → (rest : List Str) × (h : Str) × (ip : Ipv4Addr) × (pop_back pool.lru ≡ some (rest, h))
      × Popped pool.lru rest h
      × (lookup h pool.host_to_ip ≡ some ip)
oldest_of n pool v pos = go pool.lru refl
  where
    go :
        (l : List Str)
        → pool.lru ≡ l
        → (rest : List Str) × (h : Str) × (ip : Ipv4Addr) × (pop_back pool.lru ≡ some (rest, h))
          × Popped pool.lru rest h
          × (lookup h pool.host_to_ip ≡ some ip)
    go [] e = absurd (omega (arith, ap length e, v.queued))
    go (x ∷ l) e =
        let (rest, h, found, popped) = pop_back-some x l in
        let popped' : Popped pool.lru rest h = rw e popped in
        let (ip, there) =
          some_of_is_some (lookup h pool.host_to_ip) (sym (v.recent h) ∙ popped'.member) in
        (rest, h, ip, rw e found, popped', there)

pub evict-IsValid :
    (n : ℕ) (pool : FakeIpPool)
    → IsValid (suc n) pool
    → 0 < length pool.host_to_ip
    → IsValid n (evict pool)
unfolding evict
evict-IsValid n pool v pos =
    let (rest, h, ip, found, popped, there) = oldest_of (suc n) pool v pos in
    rw (found, evict) (rw (there, evict) (drop-IsValid n pool rest h ip v popped there))

-- After the test for a full pool there is room for one more.
pub make_room-IsValid : (pool : FakeIpPool) → IsValid 8192 pool → IsValid 8191 (make_room pool)
unfolding make_room
make_room-IsValid pool v = elim (Bool-cases (leb 8192 (length pool.host_to_ip))) [
  | inl full ↦ rw full (evict-IsValid 8191 pool v (ground arith))
  | inr space ↦ rw space (weaken-IsValid 8192 8191 pool (ground arith) v)
]

pub assign-IsValid :
    (in_use : Ipv4Addr → Bool) (h : Str) (r : Option Ipv4Addr × ℕ) (pool : FakeIpPool)
    → IsValid 8191 pool
    → lookup h pool.host_to_ip ≡ none
    → IsFound in_use pool.ip_to_host r.0
    → InWindow r.1
    → IsValid 8192 (assign h r pool).1
unfolding assign
assign-IsValid in_use h (none, next) pool v fresh f w =
    weaken-IsValid 8191 8192 (record pool { next = next }) (omega (arith, v.bounded))
      (move-IsValid 8191 pool next w v)
assign-IsValid in_use h (some ip, next) pool v fresh f w =
    add-IsValid 8191 pool h ip next v f.0 f.1 fresh w

evict_fresh :
    (pool : FakeIpPool) (h : Str)
    → lookup h pool.host_to_ip ≡ none
    → lookup h (evict pool).host_to_ip ≡ none
unfolding evict
evict_fresh pool h e = elim (Option-cases (pop_back pool.lru)) [
  | inl empty ↦ rw (empty, evict) e
  | inr ((rest, k), found) ↦
      rw (found, evict)
        (elim (Option-cases (lookup k pool.host_to_ip)) [
          | inl miss ↦ rw (miss, evict) (rw lookup-remove (ground arith))
          | inr (ip, there) ↦ rw (there, evict) (rw lookup-remove (ground arith))
        ])
]

-- Neither branch of `make_room` brings a host in.
pub make_room_fresh :
    (pool : FakeIpPool) (h : Str)
    → lookup h pool.host_to_ip ≡ none
    → lookup h (make_room pool).host_to_ip ≡ none
unfolding make_room
make_room_fresh pool h e = elim (Bool-cases (leb 8192 (length pool.host_to_ip))) [
  | inl full ↦ rw full (evict_fresh pool h e)
  | inr space ↦ rw space e
]

pub lookup_ascii-IsValid :
    (in_use : Ipv4Addr → Bool) (h : Str) (pool : FakeIpPool)
    → IsValid 8192 pool
    → IsValid 8192 (lookup_ascii in_use h pool).1
unfolding lookup_ascii
lookup_ascii-IsValid in_use h pool v = elim (Option-cases (lookup h pool.host_to_ip)) [
  | inl fresh ↦
      let v' = make_room-IsValid pool v in
      let (found, w) =
        scan-IsFound in_use (make_room pool).ip_to_host rounds (make_room pool).next v'.window in
      rw (fresh, lookup_ascii)
        (assign-IsValid in_use h _ (make_room pool) v' (make_room_fresh pool h fresh) found w)
  | inr (ip, there) ↦ rw (there, lookup_ascii) (touch-IsValid 8192 h pool v)
]

pub lookback-IsValid :
    (ip : Ipv4Addr) (pool : FakeIpPool) → IsValid 8192 pool → IsValid 8192 (lookback ip pool).1
unfolding lookback
lookback-IsValid ip pool v = elim (Option-cases (lookup ip pool.ip_to_host)) [
  | inl miss ↦ rw (miss, lookback) v
  | inr (h, there) ↦ rw (there, lookback) (touch-IsValid 8192 h pool v)
]

-- One call on the pool, in any use of the addresses.
pub data Step (idna : Str → Option Str) (pool : FakeIpPool) : FakeIpPool → Type 0 where
  look :
      (in_use : Ipv4Addr → Bool) (host : Str)
      → Step idna pool (lookup_avoiding idna in_use host pool).1
  back : (ip : Ipv4Addr) → Step idna pool (lookback ip pool).1

pub data Reach (idna : Str → Option Str) (pool : FakeIpPool) : FakeIpPool → Type 0 where
  here : Reach idna pool pool
  next : {p q : FakeIpPool} → Reach idna pool p → Step idna p q → Reach idna pool q

Step-IsValid :
    (idna : Str → Option Str) {p q : FakeIpPool} → Step idna p q → IsValid 8192 p → IsValid 8192 q
unfolding lookup_avoiding
Step-IsValid idna {p} (look in_use host) v =
    lookup_ascii-IsValid in_use (domain_to_ascii idna host) p v
Step-IsValid idna {p} (back ip) v = lookback-IsValid ip p v

-- Whatever calls of `lookup_avoiding` and `lookback` are made on a new pool, it stays valid: at
-- most 8192 hosts, the two maps inverse to each other, every address one of 198.18.0.0/16 from
-- 198.18.0.4 on with a last octet other than 0 and 255, and in the queue exactly the hosts of the
-- maps, each once.
pub Reach-IsValid :
    (idna : Str → Option Str) {pool : FakeIpPool} → Reach idna new pool → IsValid 8192 pool
Reach-IsValid idna here = new-IsValid
Reach-IsValid idna (next r s) = Step-IsValid idna s (Reach-IsValid idna r)

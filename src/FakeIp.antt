-- ===== src/FakeIp.antt =====
-- crates/clash-core/src/dns.rs, lines 13 to 120: the pool of fake addresses that the DNS server of
-- the tunnel hands out for host names. The crate `idna` is an argument, as in `Utils`. `in_use` is
-- the closure that `lookup_avoiding` is given.
pub mod Lru
pub mod Window
pub mod Invariant
pub mod Operations
pub mod Answer
pub mod Total
mod Tests
use rust_clash.Common.{
  ℕ, zero, suc, ◌+◌, ◌*◌, ◌/◌, ◌%◌, ◌≡◌, Bool, true, false, not, ◌&&◌, ◌||◌, List, [], ◌∷◌, Option,
  none, ◌^◌, some, ltb, leb, ◌==◌, if◌then◌else◌, lookup, insert, remove, contains_key, length,
  list_eq, nat_eq, Eq,
}
use rust_clash.Net.{Ipv4Addr, ip_eq, IpAddr}
use rust_clash.Text.{Str}
use rust_clash.Utils.{domain_to_ascii}

pub record FakeIpPool : Type 0 where
  pub host_to_ip : List (Str × Ipv4Addr)
  pub ip_to_host : List (Ipv4Addr × Str)
  pub lru : List Str
  pub next : ℕ

abbrev pub first : ℕ
first = 4

abbrev pub last : ℕ
last = 0xFFFE

abbrev pub max_hosts : ℕ
max_hosts = 8192

unfoldable pub new : FakeIpPool
new = record { host_to_ip = []; ip_to_host = []; lru = []; next = first }

-- The function `host_to_ip`; `as u8` keeps the low byte.
unfoldable pub ip_of_bits : ℕ → Ipv4Addr
ip_of_bits bits = record { a = 198; b = 18; c = bits / 2 ^ 8 % 2 ^ 8; d = bits % 2 ^ 8 }

unfoldable pub is_fake_ip_v4 : Ipv4Addr → Bool
is_fake_ip_v4 ip =
    if not (ip.a == 198) || not (ip.b == 18) then false else leb first (ip.c * 2 ^ 8 + ip.d)

unfoldable pub is_fake_ip : IpAddr → Bool
unfolding is_fake_ip_v4
is_fake_ip (IpAddr.v4 ip) = is_fake_ip_v4 ip
is_fake_ip (IpAddr.v6 ip) = false

module _ {A : Type 0} ⦃e : Eq A⦄ where
  -- `position` and `VecDeque::remove`: the list without the first `a`, if it is there.
  unfoldable pub take_out : A → List A → Option (List A)
  take_out a [] = none
  take_out a (x ∷ l) =
      let deeper : Option (List A) = elim (take_out a l) [
        | none ↦ none
        | some rest ↦ some (x ∷ rest)
      ] in
      if e.beq x a then some l else deeper

unfoldable pub pop_back : {A : Type 0} → List A → Option (List A × A)
pop_back [] = none
pop_back (x ∷ l) = elim (pop_back l) [
  | none ↦ some ([], x)
  | some (rest, oldest) ↦ some (x ∷ rest, oldest)
]

unfoldable pub touch : Str → FakeIpPool → FakeIpPool
touch host pool = elim (take_out host pool.lru) [
  | none ↦ pool
  | some rest ↦ record pool { lru = host ∷ rest }
]

unfoldable pub evict : FakeIpPool → FakeIpPool
evict pool = elim (pop_back pool.lru) [
  | none ↦ pool
  | some (rest, host) ↦ elim (lookup host pool.host_to_ip) [
    | none ↦ record pool { lru = rest; host_to_ip = remove host pool.host_to_ip }
    | some ip ↦ record pool {
      lru = rest;
      host_to_ip = remove host pool.host_to_ip;
      ip_to_host = remove ip pool.ip_to_host;
    }
  ]
]

-- `self.next += 1` and the jump back to the first address.
unfoldable pub advance : ℕ → ℕ
advance next = if ltb last (next + 1) then first else next + 1

-- The two tests that make the loop `continue`.
unfoldable pub is_skipped : (Ipv4Addr → Bool) → List (Ipv4Addr × Str) → Ipv4Addr → Bool
is_skipped in_use taken ip = (ip.d == 0 || ip.d == 255) || (contains_key ip taken || in_use ip)

-- The loop, for a number of rounds: the address that it stops at, if any, and the last `next`.
unfoldable pub scan : ℕ → (Ipv4Addr → Bool) → List (Ipv4Addr × Str) → ℕ → Option Ipv4Addr × ℕ
scan zero in_use taken next = (none, next)
scan (suc n) in_use taken next =
    let more = scan n in_use taken (advance next) in
    if is_skipped in_use taken (ip_of_bits next)
    then more
    else (some (ip_of_bits next), advance next)

abbrev pub rounds : ℕ
rounds = 65530

-- The two insertions after the loop's tests, or the address after the loop.
unfoldable pub assign : Str → Option Ipv4Addr × ℕ → FakeIpPool → Ipv4Addr × FakeIpPool
assign host (none, next) pool =
    (record { a = 198; b = 18; c = 0; d = 4 }, record pool { next = next })
assign host (some ip, next) pool = (
  ip,
  record {
    host_to_ip = insert host ip pool.host_to_ip;
    ip_to_host = insert ip host pool.ip_to_host;
    lru = host ∷ pool.lru;
    next = next;
  },
)

-- `if self.host_to_ip.len() >= Self::MAX`.
unfoldable pub make_room : FakeIpPool → FakeIpPool
make_room pool = if leb max_hosts (length pool.host_to_ip) then evict pool else pool

-- `lookup_avoiding` on a host in its ASCII form.
unfoldable pub lookup_ascii : (Ipv4Addr → Bool) → Str → FakeIpPool → Ipv4Addr × FakeIpPool
lookup_ascii in_use host pool = elim (lookup host pool.host_to_ip) [
  | some ip ↦ (ip, touch host pool)
  | none ↦
      let roomy = make_room pool in
      assign host (scan rounds in_use roomy.ip_to_host roomy.next) roomy
]

module _ (idna : Str → Option Str) where
  unfoldable pub lookup_avoiding : (Ipv4Addr → Bool) → Str → FakeIpPool → Ipv4Addr × FakeIpPool
  lookup_avoiding in_use host pool = lookup_ascii in_use (domain_to_ascii idna host) pool

  -- `FakeIpPool::lookup`.
  unfoldable pub lookup_host : Str → FakeIpPool → Ipv4Addr × FakeIpPool
  unfolding lookup_avoiding
  lookup_host host pool = lookup_avoiding (λ ip. false) host pool

unfoldable pub lookback : Ipv4Addr → FakeIpPool → Option Str × FakeIpPool
lookback ip pool = elim (lookup ip pool.ip_to_host) [
  | none ↦ (none, pool)
  | some host ↦ (some host, touch host pool)
]

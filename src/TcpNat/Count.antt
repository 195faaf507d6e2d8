-- ===== src/TcpNat/Count.antt =====
-- How many sessions the table of crates/clash-tun/src/nat.rs can hold, and their destinations.
use rust_clash.Common.{
  ℕ, zero, suc, ◌+◌, ◌≤◌, ◌<◌, ◌≡◌, refl, true, false, none, some, List, [], ◌∷◌, arith, inl, inr,
  length, lookup, contains, contains_key, any_value, IsMap, IsNodup, All, beq-cases, nat_eq,
  length-le_of_AllIn, ==_self,
}
use mathlib.Core.Path.{subst}
use rust_clash.Net.{Ipv4Addr, ip_eq, ip_beq}
use rust_clash.TcpNat.{TcpSession, TcpNat, Inner, has_destination}
use rust_clash.TcpNat.Invariant.{IsConsistent}

keys : List (ℕ × TcpSession) → List ℕ
keys [] = []
keys ((p, s) ∷ m) = p ∷ keys m

-- The ports of the range, as the keys of a map.
ports : ℕ → List (ℕ × ℕ)
ports zero = []
ports (suc n) = (10000 + n, 0) ∷ ports n

lookup-ports : (n p : ℕ) → 10000 + n ≤ p → lookup p (ports n) ≡ none
unfolding ports lookup
lookup-ports zero p h = refl
lookup-ports (suc n) p h = ground (arith, lookup-ports n p)

ports-IsMap : (n : ℕ) → IsMap (ports n)
unfolding ports
ports-IsMap zero = tt
ports-IsMap (suc n) = (lookup-ports n (10000 + n) (omega arith), ports-IsMap n)

length-ports : (n : ℕ) → length (ports n) ≡ n
unfolding ports
length-ports zero = refl
length-ports (suc n) = omega (arith, length-ports n)

ports_within : (n p : ℕ) → 10000 ≤ p → p < 10000 + n → contains_key p (ports n) ≡ true
unfolding ports lookup
ports_within zero p h k = absurd (omega arith)
ports_within (suc n) p h k = ground (arith, ports_within n p)

keys_absent : (m : List (ℕ × TcpSession)) (p : ℕ) → lookup p m ≡ none → contains p (keys m) ≡ false
unfolding keys lookup contains
keys_absent [] p h = refl
keys_absent ((q, s) ∷ m) p h = ground (arith, keys_absent m p)

keys-IsNodup : (m : List (ℕ × TcpSession)) → IsMap m → IsNodup (keys m)
unfolding keys
keys-IsNodup [] h = tt
keys-IsNodup ((p, s) ∷ m) h = (keys_absent m p h.0, keys-IsNodup m h.1)

-- A session further back in a map is found there.
lookup_behind :
    (p q : ℕ) (s s' : TcpSession) (m : List (ℕ × TcpSession))
    → IsMap ((p, s) ∷ m)
    → lookup q m ≡ some s'
    → lookup q ((p, s) ∷ m) ≡ some s'
unfolding lookup
lookup_behind p q s s' m u h = elim (beq-cases p q) [
  | inl x ↦ cc (subst (λ r. lookup r m ≡ none) x u.0, h)
  | inr n ↦ rw n.1 h
]

lookup_first : (p : ℕ) (s : TcpSession) (m : List (ℕ × TcpSession)) → lookup p ((p, s) ∷ m) ≡ some s
unfolding lookup
lookup_first p s m = rw (==_self p) refl

keys_within :
    (n : ℕ) (m : List (ℕ × TcpSession))
    → IsMap m
    → ((p : ℕ) (s : TcpSession) → lookup p m ≡ some s → (10000 ≤ p) × (p < 10000 + n))
    → All (λ p. contains_key p (ports n) ≡ true) (keys m)
unfolding keys
keys_within n [] u h = tt
keys_within n ((p, s) ∷ m) u h =
    let (low, high) = h p s (lookup_first p s m) in
    (
      ports_within n p low high,
      keys_within n m u.1 (λ q s' e. h q s' (lookup_behind p q s s' m u e)),
    )

length-keys : (m : List (ℕ × TcpSession)) → length (keys m) ≡ length m
unfolding keys
length-keys [] = refl
length-keys ((p, s) ∷ m) = omega (arith, length-keys m)

-- A consistent table has at most 55536 sessions.
pub length-port_map : (g : Inner) → IsConsistent g → length g.port_map ≤ 55536
length-port_map g c = omega (
  arith,
  length-keys g.port_map,
  length-ports 55536,
  length-le_of_AllIn (keys g.port_map) (ports 55536) (keys-IsNodup g.port_map c.distinct)
      (ports-IsMap 55536) (keys_within 55536 g.port_map c.distinct c.range),
)

-- The destinations of the sessions.
unfoldable pub destinations : List (ℕ × TcpSession) → List Ipv4Addr
destinations [] = []
destinations ((p, s) ∷ m) = s.destination.ip ∷ destinations m

pub length-destinations : (m : List (ℕ × TcpSession)) → length (destinations m) ≡ length m
unfolding destinations
length-destinations [] = refl
length-destinations ((p, s) ∷ m) = omega (arith, length-destinations m)

destinations_any :
    (m : List (ℕ × TcpSession)) (ip : Ipv4Addr)
    → any_value (λ s. ip_beq s.destination.ip ip) m ≡ true
    → contains ip (destinations m) ≡ true
unfolding destinations any_value contains
destinations_any [] ip h = cc
destinations_any ((p, s) ∷ m) ip h = ground (arith, destinations_any m ip)

pub has_destination_listed :
    (ip : Ipv4Addr) (t : TcpNat)
    → has_destination ip t ≡ true
    → contains ip (destinations t.gate.port_map) ≡ true
unfolding has_destination
has_destination_listed ip t h = destinations_any t.gate.port_map ip h

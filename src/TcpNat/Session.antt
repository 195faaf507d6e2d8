-- ===== src/TcpNat/Session.antt =====
-- What `lookup` and `lookup_back` of crates/clash-tun/src/nat.rs answer.
use rust_clash.Common.{
  ℕ, ◌<◌, ◌≡◌, ◌≢◌, ◌↔◌, refl, sym, ap, ◌∙◌, Option, none, some, arith, lookup, insert,
  lookup-insert_self, lookup-insert_ne, nat_eq, Bool-cases, Option-cases, beq-cases, inl, inr,
  contains_key, ◌||◌, ◌==◌, forward_injective,
}
use mathlib.Core.Path.{subst}
use rust_clash.Net.{SocketAddrV4, addr_eq, addr_beq, addr_beq_iff}
use rust_clash.TcpNat.{TcpSession, Inner, rounds, refresh, claim, lookup_inner, lookup_back_inner}
use rust_clash.TcpNat.Search.{
  InRange, IsTaken, probe, search_port_range, search_port-IsTaken, search_port_full,
}
use rust_clash.TcpNat.Invariant.{IsConsistent, lookup_inner-IsConsistent}

-- What a successful `lookup` leaves: the port leads back to the source and the destination, and
-- nothing else has changed.
pub record Granted (now : ℕ) (a d : SocketAddrV4) (g : Inner) (p : ℕ) (g' : Inner) : Type 0 where
  pub session : lookup p g'.port_map ≡ some (record { source = a; destination = d; last = now })
  pub address : lookup a g'.addr_map ≡ some p
  pub other_ports : (q : ℕ) → p ≢ q → lookup q g'.port_map ≡ lookup q g.port_map
  pub other_sources : (b : SocketAddrV4) → a ≢ b → lookup b g'.addr_map ≡ lookup b g.addr_map

-- An answer of `lookup`: a granted port, or a refusal that leaves both maps as they are.
abbrev pub Outcome : ℕ → SocketAddrV4 → SocketAddrV4 → Inner → Option ℕ × Inner → Type 0
Outcome now a d g (none, g') = (g'.port_map ≡ g.port_map) × (g'.addr_map ≡ g.addr_map)
Outcome now a d g (some p, g') = Granted now a d g p g'

overwrite-Granted :
    (now : ℕ) (a d : SocketAddrV4) (p : ℕ) (g : Inner) (s : TcpSession)
    → lookup a g.addr_map ≡ some p
    → s ≡ record { source = a; destination = d; last = now }
    → Granted now a d g p (record g { port_map = insert p s g.port_map })
overwrite-Granted now a d p g s h e = record {
  session = rw lookup-insert_self (ap some e);
  address = h;
  other_ports = λ q n. lookup-insert_ne p q s g.port_map n;
  other_sources = λ b n. refl;
}

refresh-Granted :
    (now : ℕ) (a d : SocketAddrV4) (p : ℕ) (g : Inner)
    → IsConsistent g
    → lookup a g.addr_map ≡ some p
    → Granted now a d g p (refresh now a d p g)
unfolding refresh
refresh-Granted now a d p g c h =
    let (s, hs, es) = c.inverse.forward a p h in
    rw (hs, refresh)
      (elim (Bool-cases (addr_beq s.destination d)) [
        | inl same ↦
            let to : s.destination ≡ d = (addr_beq_iff s.destination d).0 same in
            rw same (overwrite-Granted now a d p g _ h (cc (es, to)))
        | inr changed ↦ rw changed (overwrite-Granted now a d p g _ h (cc es))
      ])

claim-Outcome :
    (now : ℕ) (a d : SocketAddrV4) (r : ℕ × ℕ) (g : Inner) → Outcome now a d g (claim now a d r g)
unfolding claim
claim-Outcome now a d (q, i) g = elim (Bool-cases (q == 0 || contains_key q g.port_map)) [
  | inl full ↦ rw full (refl, refl)
  | inr found ↦ rw found (record {
    session = lookup-insert_self q _ g.port_map;
    address = lookup-insert_self a q g.addr_map;
    other_ports = λ p n. lookup-insert_ne q p _ g.port_map n;
    other_sources = λ b n. lookup-insert_ne a b q g.addr_map n;
  })
]

-- On a consistent table `lookup` grants a port, under which the session is then recorded with its
-- source, its destination and the time, and leaves every other port and every other source alone;
-- or it refuses, and both maps stay as they are.
pub lookup_inner-Outcome :
    (now : ℕ) (a d : SocketAddrV4) (g : Inner)
    → IsConsistent g
    → Outcome now a d g (lookup_inner now a d g)
unfolding lookup_inner
lookup_inner-Outcome now a d g c = elim (Option-cases (lookup a g.addr_map)) [
  | inl fresh ↦ rw (fresh, lookup_inner) (claim-Outcome now a d _ g)
  | inr (p, h) ↦ rw (h, lookup_inner) (refresh-Granted now a d p g c h)
]

-- After a granted `lookup`, `lookup_back` of its port answers the source and the destination.
pub lookup_back-lookup :
    (now later : ℕ) (a d : SocketAddrV4) (g : Inner) (p : ℕ) (g' : Inner)
    → IsConsistent g
    → lookup_inner now a d g ≡ (some p, g')
    → (lookup_back_inner later p g').0 ≡ some (a, d)
unfolding lookup_back_inner
lookup_back-lookup now later a d g p g' c h =
    let granted : Granted now a d g p g' =
      subst (Outcome now a d g) h (lookup_inner-Outcome now a d g c) in
    rw (granted.session, lookup_back_inner) refl

-- Two sources never share a port: if two `lookup` calls in a row are granted the same port, they
-- were made for the same source.
lookup_inner_injective :
    (now later : ℕ) (a b d e : SocketAddrV4) (g : Inner) (p : ℕ) (g' g'' : Inner)
    → IsConsistent g
    → lookup_inner now a d g ≡ (some p, g')
    → lookup_inner later b e g' ≡ (some p, g'')
    → a ≡ b
lookup_inner_injective now later a b d e g p g' g'' c h k =
    let c' : IsConsistent g' =
      subst (λ r. IsConsistent r.1) h (lookup_inner-IsConsistent now a d g c) in
    let c'' : IsConsistent g'' =
      subst (λ r. IsConsistent r.1) k (lookup_inner-IsConsistent later b e g' c') in
    let first : Granted now a d g p g' =
      subst (Outcome now a d g) h (lookup_inner-Outcome now a d g c) in
    let second : Granted later b e g' p g'' =
      subst (Outcome later b e g') k (lookup_inner-Outcome later b e g' c') in
    elim (beq-cases b a) [
      | inl x ↦ sym x
      | inr n ↦
          forward_injective (λ (s : TcpSession). s.source) g''.addr_map g''.port_map c''.inverse a b
            p (second.other_sources a n.0 ∙ first.address) second.address
    ]

-- The port at distance `k` from the index of the table.
abbrev pub IsBusy : Inner → ℕ → Type 0
IsBusy g k = IsTaken g.port_map (probe g.port_index k)

claim-none :
    (now : ℕ) (a d : SocketAddrV4) (r : ℕ × ℕ) (g : Inner)
    → IsTaken g.port_map r.0
    → (claim now a d r g).0 ≡ none
unfolding claim
claim-none now a d (q, i) g t = ground arith

IsTaken-claim :
    (now : ℕ) (a d : SocketAddrV4) (r : ℕ × ℕ) (g : Inner)
    → InRange r
    → (claim now a d r g).0 ≡ none
    → IsTaken g.port_map r.0
unfolding claim
IsTaken-claim now a d (q, i) g range h = ground arith

-- For a source that has no port, `lookup` on a consistent table refuses exactly when each of the
-- 55535 ports from its index on is taken. There are 55536 ports in the range: the one at distance
-- 55535, the port just before the index, is not tried, so that a table with only that port free
-- refuses a new source.
pub lookup_inner-eq-none_iff :
    (now : ℕ) (a d : SocketAddrV4) (g : Inner)
    → IsConsistent g
    → lookup a g.addr_map ≡ none
    → ((lookup_inner now a d g).0 ≡ none) ↔ ((k : ℕ) → k < 55535 → IsBusy g k)
unfolding lookup_inner
lookup_inner-eq-none_iff now a d g c fresh =
    let range = search_port_range g.port_map 55534 0 g.port_index c.index in
    rw (fresh, lookup_inner)
      (
        λ h k lt.
            search_port-IsTaken g.port_map rounds 0 g.port_index k c.index
              (IsTaken-claim now a d _ g range h) lt,
        λ busy. claim-none now a d _ g (
            rw (search_port_full g.port_map 55534 0 g.port_index c.index busy)
              (busy 55534 (omega arith))),
      )

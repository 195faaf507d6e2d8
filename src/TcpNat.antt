-- ===== src/TcpNat.antt =====
-- crates/clash-tun/src/nat.rs: the table that gives each TCP source of the tunnel a local port.
-- `Instant::now()` is the argument `now`, a number of ticks, and the mutex makes each operation one
-- step. A `HashMap` is `Common.Map`.
pub mod Search
pub mod Invariant
pub mod Session
pub mod Sweep
pub mod Count
mod Tests
use rust_clash.Common.{
  ℕ, zero, suc, ◌+◌, ◌-◌, ◌%◌, ◌^◌, Bool, true, false, not, ◌||◌, List, [], ◌∷◌, Option, none, some,
  ltb, ◌==◌, if◌then◌else◌, lookup, insert, remove, contains_key, any_value, nat_eq,
}
use rust_clash.Net.{Ipv4Addr, SocketAddrV4, ip_beq, addr_beq, addr_eq}

pub record TcpSession : Type 0 where
  pub source : SocketAddrV4
  pub destination : SocketAddrV4
  pub last : ℕ

pub record Inner : Type 0 where
  pub addr_map : List (SocketAddrV4 × ℕ)
  pub port_map : List (ℕ × TcpSession)
  pub port_index : ℕ

pub record TcpNat : Type 0 where
  pub timeout : ℕ
  pub gate : Inner

unfoldable pub new : ℕ → TcpNat
new timeout = record {
  timeout = timeout;
  gate = record { addr_map = []; port_map = []; port_index = 10000 };
}

-- One round of the search: the candidate `next`, and the index after it.
abbrev pub candidate : ℕ → ℕ
candidate i = if i == 0 then 10000 else i

abbrev pub advance : ℕ → ℕ
advance i = if i == 0 then 10001 else (i + 1) % 2 ^ 16

-- `for _ in 0..rounds`, from the value that `next` has before: the last `next`, and the index.
unfoldable pub search_port : ℕ → List (ℕ × TcpSession) → ℕ → ℕ → ℕ × ℕ
search_port zero ports next i = (next, i)
search_port (suc n) ports next i =
    let more = search_port n ports (candidate i) (advance i) in
    if contains_key (candidate i) ports then more else (candidate i, advance i)

abbrev pub rounds : ℕ
rounds = 55535

-- The branch for a known source.
unfoldable pub refresh : ℕ → SocketAddrV4 → SocketAddrV4 → ℕ → Inner → Inner
refresh now source destination existing g = elim (lookup existing g.port_map) [
  | none ↦ g
  | some s ↦
      if addr_beq s.destination destination
      then record g { port_map = insert existing (record s { last = now }) g.port_map }
      else record g {
        port_map =
            insert existing (record { source = s.source; destination = destination; last = now })
              g.port_map;
      }
]

-- The branch for a new source, from the last candidate `next` and the index `i` on.
unfoldable pub claim : ℕ → SocketAddrV4 → SocketAddrV4 → ℕ × ℕ → Inner → Option ℕ × Inner
claim now source destination (next, i) g =
    if next == 0 || contains_key next g.port_map then (none, record g { port_index = i }) else (
      some next,
      record {
        addr_map = insert source next g.addr_map;
        port_map =
            insert next (record { source = source; destination = destination; last = now })
              g.port_map;
        port_index = i;
      },
    )

-- The body of `TcpNat::lookup` under the lock.
unfoldable pub lookup_inner : ℕ → SocketAddrV4 → SocketAddrV4 → Inner → Option ℕ × Inner
lookup_inner now source destination g = elim (lookup source g.addr_map) [
  | some existing ↦ (some existing, refresh now source destination existing g)
  | none ↦ claim now source destination (search_port rounds g.port_map 0 g.port_index) g
]

unfoldable pub lookup_back_inner : ℕ → ℕ → Inner → Option (SocketAddrV4 × SocketAddrV4) × Inner
lookup_back_inner now port g = elim (lookup port g.port_map) [
  | none ↦ (none, g)
  | some s ↦ (
    some (s.source, s.destination),
    record g { port_map = insert port (record s { last = now }) g.port_map },
  )
]

unfoldable pub has_destination : Ipv4Addr → TcpNat → Bool
has_destination ip t = any_value (λ s. ip_beq s.destination.ip ip) t.gate.port_map

-- The ports whose session has been idle for longer than the timeout. `duration_since` stops at 0.
unfoldable pub dead_ports : ℕ → ℕ → List (ℕ × TcpSession) → List ℕ
dead_ports now timeout [] = []
dead_ports now timeout ((p, s) ∷ m) =
    let rest = dead_ports now timeout m in if ltb timeout (now - s.last) then p ∷ rest else rest

-- One round of the loop over them.
unfoldable pub drop_port : ℕ → Inner → Inner
drop_port p g = elim (lookup p g.port_map) [
  | none ↦ record g { port_map = remove p g.port_map }
  | some s ↦ record g { addr_map = remove s.source g.addr_map; port_map = remove p g.port_map }
]

unfoldable pub drop_ports : List ℕ → Inner → Inner
drop_ports [] g = g
drop_ports (p ∷ ps) g = drop_ports ps (drop_port p g)

unfoldable pub sweep_inner : ℕ → ℕ → Inner → Inner
sweep_inner now timeout g = drop_ports (dead_ports now timeout g.port_map) g

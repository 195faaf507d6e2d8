-- ===== src/TcpNat/Tests.antt =====
-- Runs of the table of crates/clash-tun/src/nat.rs, and its theorems at concrete inputs.
use rust_clash.Common.{
  ℕ, ◌<◌, ◌≡◌, ◌↔◌, refl, [], ◌∷◌, none, some, lookup, insert, remove, nat_eq, if◌then◌else◌,
}
use rust_clash.Net.{SocketAddrV4, addr_eq}
use rust_clash.TcpNat.{
  Inner, new, search_port, refresh, claim, lookup_inner, lookup_back_inner, dead_ports, drop_port,
  drop_ports, sweep_inner,
}
use rust_clash.TcpNat.Invariant.{IsConsistent, new-IsConsistent, lookup_inner-IsConsistent}
use rust_clash.TcpNat.Session.{
  Outcome, IsBusy, lookup_inner-Outcome, lookup_back-lookup, lookup_inner-eq-none_iff,
}
use rust_clash.TcpNat.Sweep.{is_idle, sweep_inner_lem}

program : Unit {0}
unfolding new search_port refresh claim lookup_inner lookup_back_inner dead_ports drop_port
    drop_ports sweep_inner lookup insert remove
program = tt

abbrev client : SocketAddrV4
client = record { ip = record { a = 172; b = 19; c = 0; d = 1 }; port = 5000 }

abbrev server : SocketAddrV4
server = record { ip = record { a = 1; b = 2; c = 3; d = 4 }; port = 443 }

abbrev start : Inner
start = record { addr_map = []; port_map = []; port_index = 10000 }

abbrev one : Inner
one = record {
  addr_map = (client, 10000) ∷ [];
  port_map = (10000, record { source = client; destination = server; last = 7 }) ∷ [];
  port_index = 10001;
}

lookup_once : lookup_inner 7 client server start ≡ (some 10000, one)
unfolding program
lookup_once = refl

lookup_again : lookup_inner 7 client server one ≡ (some 10000, one)
unfolding program
lookup_again = refl

swept : sweep_inner 100 60 one ≡ record { addr_map = []; port_map = []; port_index = 10001 }
unfolding program
swept = refl

start-IsConsistent : IsConsistent start
unfolding program
start-IsConsistent = new-IsConsistent 60

one-IsConsistent : IsConsistent one
unfolding program
one-IsConsistent = lookup_inner-IsConsistent 7 client server start start-IsConsistent

lookup_inner-Outcome_example : Outcome 7 client server start (lookup_inner 7 client server start)
lookup_inner-Outcome_example = lookup_inner-Outcome 7 client server start start-IsConsistent

lookup_back-lookup_example : (lookup_back_inner 9 10000 one).0 ≡ some (client, server)
lookup_back-lookup_example =
    lookup_back-lookup 7 9 client server start 10000 one start-IsConsistent lookup_once

lookup_inner-eq-none_iff_example :
    ((lookup_inner 7 client server start).0 ≡ none) ↔ ((k : ℕ) → k < 55535 → IsBusy start k)
unfolding lookup
lookup_inner-eq-none_iff_example =
    lookup_inner-eq-none_iff 7 client server start start-IsConsistent refl

sweep_inner_lem_example :
    IsConsistent (sweep_inner 100 60 one)
    × ((p : ℕ)
        → lookup p (sweep_inner 100 60 one).port_map
          ≡ (if is_idle 100 60 (lookup p one.port_map) then none else lookup p one.port_map))
sweep_inner_lem_example = sweep_inner_lem 100 60 one one-IsConsistent

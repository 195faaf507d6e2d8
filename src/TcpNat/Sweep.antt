-- ===== src/TcpNat/Sweep.antt =====
-- `sweep` of crates/clash-tun/src/nat.rs, and the table under any sequence of operations.
use rust_clash.Common.{
  ℕ, ◌-◌, ◌≡◌, refl, Bool, false, List, [], ◌∷◌, Option, none, some, arith, ltb, ◌==◌, lookup,
  lookup-remove, AllKeys-remove, remove_absent, remove-IsMap, IsMap, nat_eq, contains,
  Inverse-remove, Option-cases, inl, inr, if◌then◌else◌,
}
use rust_clash.Net.{SocketAddrV4, addr_eq}
use rust_clash.TcpNat.{
  TcpSession, Inner, TcpNat, new, lookup_inner, lookup_back_inner, dead_ports, drop_port,
  drop_ports, sweep_inner,
}
use rust_clash.TcpNat.Invariant.{
  IsPort, IsConsistent, new-IsConsistent, lookup_inner-IsConsistent, lookup_back_inner-IsConsistent,
}

-- Whether a session has been idle for longer than the timeout.
abbrev pub is_idle : ℕ → ℕ → Option TcpSession → Bool
is_idle now timeout none = false
is_idle now timeout (some s) = ltb timeout (now - s.last)

contains-dead_ports :
    (now timeout p : ℕ) (m : List (ℕ × TcpSession))
    → IsMap m
    → contains p (dead_ports now timeout m) ≡ is_idle now timeout (lookup p m)
unfolding contains dead_ports lookup
contains-dead_ports now timeout p [] d = refl
contains-dead_ports now timeout p ((q, s) ∷ m) d =
    ground (arith, contains-dead_ports now timeout p m)

lookup-drop_port :
    (p q : ℕ) (g : Inner)
    → lookup q (drop_port p g).port_map ≡ (if p == q then none else lookup q g.port_map)
unfolding drop_port
lookup-drop_port p q g = elim (Option-cases (lookup p g.port_map)) [
  | inl h ↦ rw (h, drop_port) (lookup-remove p q g.port_map)
  | inr (s, h) ↦ rw (h, drop_port) (lookup-remove p q g.port_map)
]

lookup-drop_ports :
    (ps : List ℕ) (q : ℕ) (g : Inner)
    → lookup q (drop_ports ps g).port_map ≡ (if contains q ps then none else lookup q g.port_map)
unfolding drop_ports contains
lookup-drop_ports [] q g = refl
lookup-drop_ports (p ∷ ps) q g =
    ground (arith, lookup-drop_ports ps q (drop_port p g), lookup-drop_port p q g)

drop_port-IsConsistent : (p : ℕ) (g : Inner) → IsConsistent g → IsConsistent (drop_port p g)
unfolding drop_port
drop_port-IsConsistent p g c = elim (Option-cases (lookup p g.port_map)) [
  | inl h ↦ rw (h, drop_port) (rw (remove_absent p g.port_map h) c)
  | inr (s, h) ↦
      rw (h, drop_port)
        (record {
          inverse = Inverse-remove (λ (s : TcpSession). s.source) _ _ c.inverse p s h;
          range = AllKeys-remove IsPort p g.port_map c.range;
          distinct = remove-IsMap p g.port_map c.distinct;
          index = c.index;
        })
]

drop_ports-IsConsistent :
    (ps : List ℕ) (g : Inner) → IsConsistent g → IsConsistent (drop_ports ps g)
unfolding drop_ports
drop_ports-IsConsistent [] g c = c
drop_ports-IsConsistent (p ∷ ps) g c =
    drop_ports-IsConsistent ps (drop_port p g) (drop_port-IsConsistent p g c)

-- `sweep` removes exactly the sessions that have been idle for longer than the timeout: for every
-- port it leaves the session as it was, or nothing if the session was idle. The table stays
-- consistent.
pub sweep_inner_lem :
    (now timeout : ℕ) (g : Inner)
    → IsConsistent g
    → IsConsistent (sweep_inner now timeout g)
      × ((p : ℕ)
          → lookup p (sweep_inner now timeout g).port_map
            ≡ (if is_idle now timeout (lookup p g.port_map) then none else lookup p g.port_map))
unfolding sweep_inner
sweep_inner_lem now timeout g c = (
  drop_ports-IsConsistent (dead_ports now timeout g.port_map) g c,
  λ p.
      rw (← contains-dead_ports now timeout p g.port_map c.distinct)
        (lookup-drop_ports (dead_ports now timeout g.port_map) p g),
)

-- One call of an operation, at the time `now`.
pub data Step (t : TcpNat) : TcpNat → Type 0 where
  look :
      (now : ℕ) (a d : SocketAddrV4) → Step t (record t { gate = (lookup_inner now a d t.gate).1 })
  back : (now p : ℕ) → Step t (record t { gate = (lookup_back_inner now p t.gate).1 })
  tidy : (now : ℕ) → Step t (record t { gate = sweep_inner now t.timeout t.gate })

pub data Reach (t : TcpNat) : TcpNat → Type 0 where
  here : Reach t t
  next : {u v : TcpNat} → Reach t u → Step u v → Reach t v

Step-IsConsistent : {t u : TcpNat} → Step t u → IsConsistent t.gate → IsConsistent u.gate
Step-IsConsistent {t} (look now a d) c = lookup_inner-IsConsistent now a d t.gate c
Step-IsConsistent {t} (back now p) c = lookup_back_inner-IsConsistent now p t.gate c
Step-IsConsistent {t} (tidy now) c = (sweep_inner_lem now t.timeout t.gate c).0

-- Whatever calls of `lookup`, `lookup_back` and `sweep` are made on a new table, in any order and
-- at any times, its two maps stay inverse to each other and its ports in the range.
Reach-IsConsistent : (timeout : ℕ) {t : TcpNat} → Reach (new timeout) t → IsConsistent t.gate
Reach-IsConsistent timeout here = new-IsConsistent timeout
Reach-IsConsistent timeout (next r s) = Step-IsConsistent s (Reach-IsConsistent timeout r)

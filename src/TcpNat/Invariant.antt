-- ===== src/TcpNat/Invariant.antt =====
-- The invariant that ties the two maps of crates/clash-tun/src/nat.rs together, and that `lookup`
-- and `lookup_back` keep it.
use rust_clash.Common.{
  ℕ, ◌≤◌, ◌<◌, ◌≡◌, refl, none, some, arith, lookup, insert, nat_eq, Inverse, Inverse-overwrite,
  Inverse-insert, Bool-cases, Option-cases, inl, inr, false, contains_key, none_of_not-is_some,
  List, IsMap, insert-IsMap, AllKeys-insert, ◌||◌, ◌==◌,
}
use rust_clash.Net.{SocketAddrV4, addr_eq, addr_beq}
use rust_clash.TcpNat.{TcpSession, Inner, new, refresh, claim, lookup_inner, lookup_back_inner}
use rust_clash.TcpNat.Search.{IsIndex, InRange, search_port_range}

abbrev pub IsPort : ℕ → Type 0
IsPort p = (10000 ≤ p) × (p < 65536)

-- Each map is the inverse of the other, each port lies in the range, and the index is valid.
pub record IsConsistent (g : Inner) : Type 0 where
  pub inverse : Inverse (λ (s : TcpSession). s.source) g.addr_map g.port_map
  pub range : (p : ℕ) (s : TcpSession) → lookup p g.port_map ≡ some s → IsPort p
  pub distinct : IsMap g.port_map
  pub index : IsIndex g.port_index

pub new-IsConsistent : (timeout : ℕ) → IsConsistent (new timeout).gate
unfolding new lookup
new-IsConsistent timeout = record {
  inverse = record { forward = λ a p h. cc; backward = λ p s h. cc };
  range = λ p s h. cc;
  distinct = tt;
  index = omega arith;
}

-- Writing a session with the same source over an old one.
overwrite-IsConsistent :
    (g : Inner) (p : ℕ) (old s : TcpSession)
    → IsConsistent g
    → lookup p g.port_map ≡ some old
    → s.source ≡ old.source
    → IsConsistent (record g { port_map = insert p s g.port_map })
overwrite-IsConsistent g p old s c h e = record {
  inverse = Inverse-overwrite _ _ _ c.inverse p old s h e;
  range = AllKeys-insert IsPort p s g.port_map (c.range p old h) c.range;
  distinct = insert-IsMap p s g.port_map c.distinct;
  index = c.index;
}

pub refresh-IsConsistent :
    (now : ℕ) (a d : SocketAddrV4) (p : ℕ) (g : Inner)
    → IsConsistent g
    → IsConsistent (refresh now a d p g)
unfolding refresh
refresh-IsConsistent now a d p g c = elim (Option-cases (lookup p g.port_map)) [
  | inl no_session ↦ rw (no_session, refresh) c
  | inr (s, h) ↦
      rw (h, refresh)
        (elim (Bool-cases (addr_beq s.destination d)) [
          | inl same ↦ rw same (overwrite-IsConsistent g p s _ c h refl)
          | inr changed ↦ rw changed (overwrite-IsConsistent g p s _ c h refl)
        ])
]

claim_free :
    (p : ℕ) (ports : List (ℕ × TcpSession))
    → (p == 0 || contains_key p ports) ≡ false
    → lookup p ports ≡ none
claim_free p ports h = none_of_not-is_some (lookup p ports) (ground arith)

pub claim-IsConsistent :
    (now : ℕ) (a d : SocketAddrV4) (r : ℕ × ℕ) (g : Inner)
    → IsConsistent g
    → InRange r
    → lookup a g.addr_map ≡ none
    → IsConsistent (claim now a d r g).1
unfolding claim
claim-IsConsistent now a d (p, i) g c r fresh =
    elim (Bool-cases (p == 0 || contains_key p g.port_map)) [
      | inl full ↦
          rw full
            (record { inverse = c.inverse; range = c.range; distinct = c.distinct; index = r.2 })
      | inr found ↦ rw found (record {
        inverse = Inverse-insert _ _ _ c.inverse p _ (claim_free p _ found) fresh;
        range = AllKeys-insert IsPort p _ g.port_map (r.0, r.1) c.range;
        distinct = insert-IsMap p _ g.port_map c.distinct;
        index = r.2;
      })
    ]

-- `lookup` keeps the invariant, whichever branch it takes.
pub lookup_inner-IsConsistent :
    (now : ℕ) (a d : SocketAddrV4) (g : Inner)
    → IsConsistent g
    → IsConsistent (lookup_inner now a d g).1
unfolding lookup_inner
lookup_inner-IsConsistent now a d g c = elim (Option-cases (lookup a g.addr_map)) [
  | inl fresh ↦
      rw (fresh, lookup_inner)
        (claim-IsConsistent now a d _ g c (search_port_range g.port_map 55534 0 _ c.index) fresh)
  | inr (p, h) ↦ rw (h, lookup_inner) (refresh-IsConsistent now a d p g c)
]

pub lookup_back_inner-IsConsistent :
    (now p : ℕ) (g : Inner) → IsConsistent g → IsConsistent (lookup_back_inner now p g).1
unfolding lookup_back_inner
lookup_back_inner-IsConsistent now p g c = elim (Option-cases (lookup p g.port_map)) [
  | inl miss ↦ rw (miss, lookup_back_inner) c
  | inr (s, h) ↦ rw (h, lookup_back_inner) (overwrite-IsConsistent g p s _ c h refl)
]

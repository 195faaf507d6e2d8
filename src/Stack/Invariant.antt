-- ===== src/Stack/Invariant.antt =====
-- crates/clash-tun/src/stack.rs: what the packet thread, the listener and the sweeper keep of the
-- state that they share.
use rust_clash.Common.{
  sym, ◌∙◌, ℕ, ◌-◌, ◌^◌, ◌<◌, ◌≡◌, Bool, not, ◌||◌, ◌&&◌, ◌==◌, Option, none, some, List,
  Bool-cases, Option-cases, inl, inr, slice, ◌>>=◌,
}
use mathlib.Core.Path.{subst}
use rust_clash.Net.{Ipv4Addr, IpAddr, SocketAddrV4, ip_beq}
use rust_clash.Text.{Str}
use rust_clash.TtlLru.{Entry}
use rust_clash.Utils.{domain_to_ascii}
use rust_clash.Packet.{Ipv4, parse_ipv4, parse_udp, parse_tcp}
use rust_clash.TcpNat.{lookup_inner, lookup_back_inner, has_destination, sweep_inner}
use rust_clash.TcpNat.Invariant.{
  IsConsistent, new-IsConsistent, lookup_inner-IsConsistent, lookup_back_inner-IsConsistent,
}
use rust_clash.FakeIp.{lookup_avoiding}
use rust_clash.TcpNat.Sweep.{sweep_inner_lem}
use rust_clash.FakeIp.Invariant.{IsValid, new-IsValid}
use rust_clash.FakeIp.Operations.{lookup_ascii-IsValid, lookback-IsValid}
use rust_clash.Dns.{parse_dns_query}
use rust_clash.Rules.{RuleAction, RuleDb}
use rust_clash.Stack.Plain.{plain_dns, plain_packet, handle_dns-plain, process_packet-plain}
use rust_clash.Stack.{
  Stack, Sent, send_back, send_out, rewrite, process_tcp, process_packet, answer_query, start,
  wrap_answer, is_global_unicast, is_tun_prefix, tun_server, with_gate,
}
use rust_clash.Stack.Accept.{Clock, is_blocked, handle_accepted}

-- The table is consistent, the pool is valid, and the listener's port is one.
pub record IsSound (s : Stack) : Type 0 where
  pub table : IsConsistent s.nat.gate
  pub pool : IsValid 8192 s.fake_ip
  pub port : s.listen_port < 2 ^ 16

-- What a step leaves, when it does not panic.
abbrev pub Keeps : Option Sent → Type 0
Keeps none = Unit {0}
Keeps (some (sent, s)) = IsSound s

sends_keep : (m : Option (List ℕ)) (s : Stack) → IsSound s → Keeps (m >>= λ out. some (some out, s))
sends_keep none s h = tt
sends_keep (some out) s h = h

send_back-Keeps :
    (now : ℕ) (packet : List ℕ) (h : Ipv4) (p : ℕ) (s : Stack)
    → IsSound s
    → Keeps (send_back now packet h p s)
unfolding send_back
send_back-Keeps now packet h p s v =
    let v' : IsSound (with_gate (lookup_back_inner now p s.nat.gate).1 s) = record {
      table = lookup_back_inner-IsConsistent now p s.nat.gate v.table;
      pool = v.pool;
      port = v.port;
    } in
    elim (Option-cases (lookup_back_inner now p s.nat.gate).0) [
      | inl e ↦ rw (e, send_back) v'
      | inr ((src, dst), e) ↦ rw (e, send_back) (sends_keep (rewrite packet h dst src) _ v')
    ]

send_out-Keeps :
    (now : ℕ) (packet : List ℕ) (h : Ipv4) (sp dp : ℕ) (s : Stack)
    → IsSound s
    → Keeps (send_out now packet h sp dp s)
unfolding send_out
send_out-Keeps now packet h sp dp s v =
    let source : SocketAddrV4 = record { ip = h.src; port = sp } in
    let dest : SocketAddrV4 = record { ip = h.dst; port = dp } in
    let v' : IsSound (with_gate (lookup_inner now source dest s.nat.gate).1 s) = record {
      table = lookup_inner-IsConsistent now source dest s.nat.gate v.table;
      pool = v.pool;
      port = v.port;
    } in
    elim (Option-cases (lookup_inner now source dest s.nat.gate).0) [
      | inl e ↦ rw (e, send_out) v'
      | inr (port, e) ↦ rw (e, send_out) (sends_keep (rewrite packet h _ _) _ v')
    ]

process_tcp-Keeps :
    (now : ℕ) (packet : List ℕ) (h : Ipv4) (sp dp : ℕ) (s : Stack)
    → IsSound s
    → Keeps (process_tcp now packet h sp dp s)
unfolding process_tcp
process_tcp-Keeps now packet h sp dp s v =
    elim (Bool-cases (ip_beq h.src tun_server && sp == s.listen_port)) [
      | inl e ↦ rw e (send_back-Keeps now packet h dp s v)
      | inr e ↦ rw e (elim (Bool-cases (ip_beq h.dst tun_server && dp == s.listen_port)) [
        | inl f ↦ rw f v
        | inr f ↦ rw f (elim (Bool-cases (not (is_global_unicast h.dst) || is_tun_prefix h.dst)) [
          | inl g ↦ rw g v
          | inr g ↦ rw g (send_out-Keeps now packet h sp dp s v)
        ])
      ])
    ]

module _ (parse_ip : Str → Option IpAddr) (idna : Str → Option Str)
    (keys : List (Str × Entry RuleAction) → List Str) (resolve : Str → Option Ipv4Addr) where
  pub answer_query-IsSound :
      (asked : ℕ × Str × ℕ) (s : Stack) → IsSound s → IsSound (answer_query idna asked s).1
  unfolding answer_query lookup_avoiding
  answer_query-IsSound (id, qname, qtype) s v = elim (Bool-cases (qtype == 1)) [
    | inl e ↦ rw e (record {
      table = v.table;
      pool =
          lookup_ascii-IsValid (λ ip. has_destination ip s.nat) (domain_to_ascii idna qname)
            s.fake_ip v.pool;
      port = v.port;
    })
    | inr e ↦ rw e v
  ]

  handle_dns-Keeps :
      (src dst : Ipv4Addr) (port : ℕ) (payload : List ℕ) (s : Stack)
      → IsSound s
      → Keeps (plain_dns idna src dst port payload s)
  unfolding plain_dns
  handle_dns-Keeps src dst port payload s v = elim (Option-cases (parse_dns_query payload)) [
    | inl e ↦ rw (e, plain_dns) v
    | inr (asked, e) ↦
        rw (e, plain_dns)
          (sends_keep (wrap_answer src dst port (answer_query idna asked s).0) _
            (answer_query-IsSound asked s v))
  ]

  process_packet-Keeps :
      (now : ℕ) (packet : List ℕ) (s : Stack) → IsSound s → Keeps (plain_packet idna now packet s)
  unfolding plain_packet
  process_packet-Keeps now packet s v = elim (Option-cases (parse_ipv4 packet)) [
    | inl e ↦ rw (e, plain_packet) v
    | inr (h, e) ↦
        let segment = slice packet h.header_len (h.total_len - h.header_len) in
        rw (e, plain_packet)
          (elim (Bool-cases (h.proto == 17)) [
            | inl udp ↦ rw udp (elim (Option-cases (parse_udp segment)) [
              | inl f ↦ rw (f, plain_packet) v
              | inr ((src_port, dst_port, len), f) ↦
                  rw (f, plain_packet)
                    (elim (Bool-cases (dst_port == 53)) [
                      | inl dns ↦
                          rw
                            (
                              dns,
                              handle_dns-plain idna h.src h.dst src_port (slice segment 8 len) s,
                            )
                            (handle_dns-Keeps h.src h.dst src_port (slice segment 8 len) s v)
                      | inr other ↦ rw other v
                    ])
            ])
            | inr other ↦ rw other (elim (Bool-cases (not (h.proto == 6))) [
              | inl unknown ↦ rw unknown v
              | inr tcp ↦ rw tcp (elim (Option-cases (parse_tcp segment)) [
                | inl f ↦ rw (f, plain_packet) v
                | inr ((sp, dp, flags, offset), f) ↦
                    rw (f, plain_packet) (process_tcp-Keeps now packet h sp dp s v)
              ])
            ])
          ])
  ]

  handle_accepted-IsSound :
      (now : ℕ) (clock : Clock) (stale : Bool) (port : ℕ) (s : Stack) (rules : RuleDb)
      → IsSound s
      → IsSound (handle_accepted parse_ip idna keys resolve now clock stale port s rules).1
  unfolding handle_accepted
  handle_accepted-IsSound now clock stale port s rules v =
      let v' : IsSound (with_gate (lookup_back_inner now port s.nat.gate).1 s) = record {
        table = lookup_back_inner-IsConsistent now port s.nat.gate v.table;
        pool = v.pool;
        port = v.port;
      } in
      elim (Option-cases (lookup_back_inner now port s.nat.gate).0) [
        | inl e ↦ rw (e, handle_accepted) v'
        | inr ((src, dest), e) ↦
            let doh = (dest.port == 443 || dest.port == 853) && is_blocked (IpAddr.v4 dest.ip) in
            rw (e, handle_accepted)
              (elim (Bool-cases stale) [
                | inl old ↦ rw old v'
                | inr fresh ↦ rw fresh (elim (Bool-cases (dest.port == 53)) [
                  | inl dns ↦ rw dns v'
                  | inr other ↦ rw other (elim (Bool-cases doh) [
                    | inl blocked ↦ rw blocked v'
                    | inr open_port ↦ rw open_port (record {
                      table = v'.table;
                      pool = lookback-IsValid dest.ip s.fake_ip v.pool;
                      port = v.port;
                    })
                  ])
                ])
              ])
      ]

  -- One step of the stack: a packet of the device, a connection of the listener, a query over TCP, or
  -- the sweeper's round. A packet at which the thread panics is no step.
  pub data Step (s : Stack) : Stack → Type 0 where
    packet :
        (now : ℕ) (bytes : List ℕ) (sent : Option (List ℕ)) (s' : Stack)
        → process_packet idna now bytes s ≡ some (sent, s')
        → Step s s'
    accepted :
        (now : ℕ) (clock : Clock) (stale : Bool) (port : ℕ) (rules : RuleDb)
        → Step s (handle_accepted parse_ip idna keys resolve now clock stale port s rules).1
    asked : (query : ℕ × Str × ℕ) → Step s (answer_query idna query s).1
    swept : (now : ℕ) → Step s (with_gate (sweep_inner now s.nat.timeout s.nat.gate) s)

  pub data Reach (s : Stack) : Stack → Type 0 where
    here : Reach s s
    next : {u v : Stack} → Reach s u → Step u v → Reach s v

  Step-IsSound : {s u : Stack} → Step s u → IsSound s → IsSound u
  Step-IsSound {s} (packet now bytes sent s' e) v =
      subst Keeps (sym (process_packet-plain idna now bytes s) ∙ e)
        (process_packet-Keeps now bytes s v)
  Step-IsSound {s} (accepted now clock stale port rules) v =
      handle_accepted-IsSound now clock stale port s rules v
  Step-IsSound {s} (asked query) v = answer_query-IsSound query s v
  Step-IsSound {s} (swept now) v = record {
    table = (sweep_inner_lem now s.nat.timeout s.nat.gate v.table).0;
    pool = v.pool;
    port = v.port;
  }

  -- In whatever order packets, connections, queries over TCP and rounds of the sweeper come, a stack
  -- that starts with a new table, a new pool and a port of 16 bits keeps a consistent table of
  -- sessions, a valid pool and that its port is one of 16 bits.
  pub Reach-IsSound :
      (timeout listen_port : ℕ) {s : Stack}
      → listen_port < 2 ^ 16
      → Reach (start timeout listen_port) s
      → IsSound s
  Reach-IsSound timeout listen_port p here = record {
    table = new-IsConsistent timeout;
    pool = new-IsValid;
    port = p;
  }
  Reach-IsSound timeout listen_port p (next r e) =
      Step-IsSound e (Reach-IsSound timeout listen_port p r)

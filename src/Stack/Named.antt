-- ===== src/Stack/Named.antt =====
-- crates/clash-tun/src/stack.rs: from the query for a name, over the connection to the address that
-- it was answered, to what is dialed for it.
use rust_clash.Common.{
  ℕ, ◌+◌, ◌^◌, ◌<◌, ◌≡◌, ◌≢◌, refl, Bool, false, ◌&&◌, ◌||◌, ◌==◌, Option, some, List, ◌∷◌, [],
  arith, length, nat_eq, All, IsByte,
}
use rust_clash.Net.{Ipv4Addr, IpAddr, SocketAddrV4, ip_beq, ip_eq}
use rust_clash.Text.{Str}
use rust_clash.Utils.{domain_to_ascii}
use rust_clash.TtlLru.{Entry}
use rust_clash.TcpNat.{Inner, lookup_inner, lookup_back_inner, has_destination}
use rust_clash.TcpNat.Invariant.{IsConsistent}
use rust_clash.TcpNat.Session.{lookup_back-lookup}
use rust_clash.FakeIp.{lookup_avoiding, lookup_ascii, lookback}
use rust_clash.FakeIp.Window.{IsPoolIp}
use rust_clash.FakeIp.Invariant.{IsValid}
use rust_clash.FakeIp.Operations.{lookup_ascii-IsValid}
use rust_clash.Dns.{labels, parse_dns_query, parse_a_answers}
use rust_clash.Dns.Name.{IsName}
use rust_clash.Rules.{RuleAction, RuleDb, match_domain}
use rust_clash.Stack.{
  Stack, process_packet, tun_server, is_global_unicast, is_tun_prefix, with_gate,
}
use rust_clash.Stack.Segment.{IsTcp}
use rust_clash.Stack.Session.{IsOutbound, Leaves, listener, local_end, outbound_lem}
use rust_clash.Stack.Datagram.{IsUdp}
use rust_clash.Stack.Answer.{process_packet_answers}
use rust_clash.Stack.Accept.{Clock, is_blocked, serve, handle_accepted, route}

-- An address of the pool is no blocked resolver, and a packet to it goes to the outside.
IsPoolIp-is_blocked : (ip : Ipv4Addr) → IsPoolIp ip → is_blocked (IpAddr.v4 ip) ≡ false
unfolding is_blocked
IsPoolIp-is_blocked ip h =
    let net = h.net.0 in let sub = h.net.1 in let high = h.high in let low = h.low in ground arith

IsPoolIp-IsOutbound :
    (listen_port : ℕ) (client : SocketAddrV4) (ip : Ipv4Addr) (port : ℕ)
    → IsPoolIp ip
    → (ip_beq client.ip tun_server && client.port == listen_port) ≡ false
    → IsOutbound listen_port client (record { ip = ip; port = port })
unfolding is_global_unicast is_tun_prefix
IsPoolIp-IsOutbound listen_port client ip port h e = record {
  program = e;
  unicast = ground (arith, h.net.0, h.net.1);
  outside = ground (arith, h.net.0, h.net.1);
}

-- The end of a connection to the address that the pool gives a name.
abbrev pub fake_end : (Str → Option Str) → Str → ℕ → Stack → SocketAddrV4
fake_end idna qname port s = record {
  ip = (lookup_avoiding idna (λ ip. has_destination ip s.nat) qname s.fake_ip).0;
  port = port;
}

module _ (parse_ip : Str → Option IpAddr) (idna : Str → Option Str)
    (keys : List (Str × Entry RuleAction) → List Str) (resolve : Str → Option Ipv4Addr) where
  -- A connection that is not stale, to an address with a host, on a port that is not handled apart.
  handle_accepted_lem :
      (now : ℕ) (clock : Clock) (port : ℕ) (s : Stack) (rules : RuleDb) (src dst : SocketAddrV4)
      (host : Str)
      → (lookup_back_inner now port s.nat.gate).0 ≡ some (src, dst)
      → (lookback dst.ip s.fake_ip).0 ≡ some host
      → dst.port ≢ 53
      → is_blocked (IpAddr.v4 dst.ip) ≡ false
      → (handle_accepted parse_ip idna keys resolve now clock false port s rules).0
        ≡ serve resolve
            (match_domain parse_ip idna keys clock.seen clock.now clock.later rules host).0
            (some host)
            dst.ip
            dst.port
  unfolding handle_accepted route
  handle_accepted_lem now clock port s rules src dst host found back plain open_port =
      let other : (dst.port == 53) ≡ false = ground arith in
      let free : ((dst.port == 443 || dst.port == 853) && is_blocked (IpAddr.v4 dst.ip)) ≡ false =
        ground arith in
      rw (found, handle_accepted) (rw (other, free) (rw (back, route) refl))

  -- From a name to what is dialed for it, on a stack with a valid pool and a consistent table. A
  -- query for the address of a name (ASCII labels, as in the wire format, at most 62) is answered
  -- with an address; a TCP packet that a program then sends to that address, at a port other than
  -- 53, is sent to the listener when the table grants it a port; and the connection that the
  -- listener accepts from that port, unless it is stale, is served as the rules decide for the
  -- ASCII form of the name, with that name as the host.
  pub named_connection :
      (now after later : ℕ) (clock : Clock) (rules : RuleDb) (s : Stack)
      (query_packet query : List ℕ) (a b : ℕ) (asker server : Ipv4Addr) (asker_port id : ℕ)
      (qname : Str) (packet : List ℕ) (n t : ℕ) (client : SocketAddrV4)
      (dst_port flags offset p : ℕ) (g : Inner)
      → IsValid 8192 s.fake_ip
      → IsConsistent s.nat.gate
      → s.listen_port < 2 ^ 16
      → IsName idna qname
      → length (labels idna qname) < 63
      → All IsByte query_packet
      → IsUdp a b asker server asker_port 53 query query_packet
      → parse_dns_query query ≡ some (id, qname, 1)
      → All IsByte packet
      → length packet < 2 ^ 16
      → IsTcp n t client (fake_end idna qname dst_port s) flags offset packet
      → (ip_beq client.ip tun_server && client.port == s.listen_port) ≡ false
      → lookup_inner after client (fake_end idna qname dst_port s) s.nat.gate ≡ (some p, g)
      → dst_port ≢ 53
      → (answered out reply : List ℕ) × (s' s'' : Stack) × (process_packet idna now query_packet s
          ≡ some (some answered, s'))
        × IsUdp 20 (20 + (8 + length reply)) server asker 53 asker_port reply answered
        × (parse_a_answers reply ≡ some (IpAddr.v4 (fake_end idna qname dst_port s).ip ∷ []))
        × (process_packet idna after packet s' ≡ some (some out, s''))
        × Leaves n t (local_end p) (listener s.listen_port) flags offset out
        × (let host = domain_to_ascii idna qname in
            (handle_accepted parse_ip idna keys resolve later clock false p s'' rules).0
            ≡ serve resolve
                (match_domain parse_ip idna keys clock.seen clock.now clock.later rules host).0
                (some host)
                (fake_end idna qname dst_port s).ip
                dst_port)
  unfolding lookup_avoiding lookback
  named_connection now after later clock rules s query_packet query a b asker server asker_port id
        qname packet n t client dst_port flags offset p g v c listens name few query_bytes asks
        asked bytes small carries program granted plain =
      let host = domain_to_ascii idna qname in
      let in_use : Ipv4Addr → Bool = λ ip. has_destination ip s.nat in
      let fake = (lookup_ascii in_use host s.fake_ip).0 in
      let dest : SocketAddrV4 = record { ip = fake; port = dst_port } in
      let (answered, reply, done, udp, whole, answers, given) =
        process_packet_answers idna now query_packet query a b asker server asker_port id qname s v
          c name few query_bytes asks asked in
      let s' = record s { fake_ip = (lookup_ascii in_use host s.fake_ip).1 } in
      let pool_ip : IsPoolIp fake =
        (lookup_ascii-IsValid in_use host s.fake_ip v).in_pool fake host given.name in
      let (out, sent, leaves, _, _) =
        outbound_lem idna after packet n t client dest flags offset s' p g c listens bytes small
          carries (IsPoolIp-IsOutbound s.listen_port client fake dst_port pool_ip program)
          granted in
      (
        answered,
        out,
        reply,
        s',
        with_gate g s',
        done,
        udp,
        answers,
        sent,
        leaves,
        handle_accepted_lem later clock p (with_gate g s') rules client dest host
            (lookup_back-lookup after later client dest s.nat.gate p g c granted)
            (rw (given.name, lookback) refl) plain (IsPoolIp-is_blocked fake pool_ip),
      )

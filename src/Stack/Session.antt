-- ===== src/Stack/Session.antt =====
-- crates/clash-tun/src/stack.rs: a TCP packet on its way out to the listener, and the listener's
-- reply on its way back.
use rust_clash.Common.{
  ℕ, ◌+◌, ◌-◌, ◌^◌, ◌<◌, ◌≤◌, ◌≡◌, refl, ◌∙◌, ap, true, false, ◌&&◌, ◌==◌, Option, some, List,
  arith, length, at, All, IsByte, at-All, All-take, All-drop, ==_self,
}
use mathlib.Core.Path.{subst}
use rust_clash.Net.{SocketAddrV4, ip_beq, IsIp}
use rust_clash.Text.{Str}
use rust_clash.Packet.{Ipv4, parse_ipv4, parse_tcp}
use rust_clash.TcpNat.{Inner, lookup_inner, lookup_back_inner}
use rust_clash.TcpNat.Invariant.{IsConsistent, lookup_inner-IsConsistent}
use rust_clash.TcpNat.Session.{Granted, Outcome, lookup_inner-Outcome, lookup_back-lookup}
use rust_clash.Stack.Plain.{plain_packet, process_packet-plain}
use rust_clash.Stack.{
  Stack, process_packet, process_tcp, send_out, send_back, rewrite, tun_server, tun_client,
  is_global_unicast, is_tun_prefix, with_gate,
}
use rust_clash.Stack.Segment.{IsTcp, IsSent, IsAddr, tcp_header}
use rust_clash.Stack.Rewrite.{rewrite_lem}

-- The ends that a packet of bytes shows are octets and ports of 16 bits.
pub parse_ipv4-IsIp :
    (packet : List ℕ) (h : Ipv4)
    → All IsByte packet
    → parse_ipv4 packet ≡ some h
    → IsIp h.src × IsIp h.dst
unfolding parse_ipv4
parse_ipv4-IsIp packet h bytes e =
    let byte : (j : ℕ) → j < length packet → IsByte (at packet j) =
      λ j. at-All IsByte packet j bytes in
    let long : 20 ≤ length packet = ground arith in
    let b12 = byte 12 (omega arith) in
    let b13 = byte 13 (omega arith) in
    let b14 = byte 14 (omega arith) in
    let b15 = byte 15 (omega arith) in
    let b16 = byte 16 (omega arith) in
    let b17 = byte 17 (omega arith) in
    let b18 = byte 18 (omega arith) in let b19 = byte 19 (omega arith) in ground arith

parse_tcp-IsPort16 :
    (segment : List ℕ) (src dst flags offset : ℕ)
    → All IsByte segment
    → parse_tcp segment ≡ some (src, dst, flags, offset)
    → (src < 2 ^ 16) × (dst < 2 ^ 16)
unfolding parse_tcp
parse_tcp-IsPort16 segment src dst flags offset bytes e =
    let byte : (j : ℕ) → j < length segment → IsByte (at segment j) =
      λ j. at-All IsByte segment j bytes in
    let long : 20 ≤ length segment = ground arith in
    let b0 = byte 0 (omega arith) in
    let b1 = byte 1 (omega arith) in
    let b2 = byte 2 (omega arith) in let b3 = byte 3 (omega arith) in ground arith

ends_of :
    (packet : List ℕ) (n t : ℕ) (src dst : SocketAddrV4) (flags offset : ℕ)
    → All IsByte packet
    → IsTcp n t src dst flags offset packet
    → IsAddr src × IsAddr dst
ends_of packet n t src dst flags offset bytes carries =
    let (s, d) = parse_ipv4-IsIp packet _ bytes carries.parsed in
    let segment_bytes = All-take IsByte (t - n) _ (All-drop IsByte n packet bytes) in
    let (sp, dp) = parse_tcp-IsPort16 _ _ _ _ _ segment_bytes carries.ports in ((s, sp), (d, dp))

-- A packet from the programs of the machine to the outside: it is not the listener's, and its
-- destination is a unicast address outside of the tunnel's own network.
pub record IsOutbound (listen_port : ℕ) (src dst : SocketAddrV4) : Type 0 where
  pub program : (ip_beq src.ip tun_server && src.port == listen_port) ≡ false
  pub unicast : is_global_unicast dst.ip ≡ true
  pub outside : is_tun_prefix dst.ip ≡ false

abbrev pub listener : ℕ → SocketAddrV4
listener port = record { ip = tun_server; port = port }

abbrev pub local_end : ℕ → SocketAddrV4
local_end port = record { ip = tun_client; port = port }

process_packet_tcp :
    (idna : Str → Option Str) (now : ℕ) (packet : List ℕ) (n t : ℕ) (src dst : SocketAddrV4)
    (flags offset : ℕ) (s : Stack)
    → IsTcp n t src dst flags offset packet
    → process_packet idna now packet s
      ≡ process_tcp now packet (tcp_header n t src dst) src.port dst.port s
unfolding plain_packet
process_packet_tcp idna now packet n t src dst flags offset s carries =
    process_packet-plain idna now packet s
    ∙ rw (carries.parsed, plain_packet) (rw (carries.ports, plain_packet) refl)

process_tcp_out :
    (now : ℕ) (packet : List ℕ) (n t : ℕ) (src dst : SocketAddrV4) (s : Stack)
    → IsOutbound s.listen_port src dst
    → process_tcp now packet (tcp_header n t src dst) src.port dst.port s
      ≡ send_out now packet (tcp_header n t src dst) src.port dst.port s
unfolding process_tcp is_tun_prefix
process_tcp_out now packet n t src dst s o =
    let mine = o.program in let unicast = o.unicast in let outside = o.outside in ground arith

-- What `send_out` does when a port is granted.
send_out-some :
    (now : ℕ) (packet out : List ℕ) (h : Ipv4) (sp dp : ℕ) (s : Stack) (p : ℕ) (g : Inner)
    → lookup_inner now
        (record { ip = h.src; port = sp })
        (record { ip = h.dst; port = dp })
        s.nat.gate
      ≡ (some p, g)
    → rewrite packet h (local_end p) (listener s.listen_port) ≡ some out
    → send_out now packet h sp dp s ≡ some (some out, with_gate g s)
unfolding send_out
send_out-some now packet out h sp dp s p g e k =
    let source : SocketAddrV4 = record { ip = h.src; port = sp } in
    let dest : SocketAddrV4 = record { ip = h.dst; port = dp } in
    let found : (lookup_inner now source dest s.nat.gate).0 ≡ some p = ap (λ r. r.0) e in
    let left : (lookup_inner now source dest s.nat.gate).1 ≡ g = ap (λ r. r.1) e in
    rw (found, send_out) (rw (k, left) refl)

-- And `send_back` when the port has a session.
send_back-some :
    (now : ℕ) (packet out : List ℕ) (h : Ipv4) (p : ℕ) (s : Stack) (src dst : SocketAddrV4)
    → (lookup_back_inner now p s.nat.gate).0 ≡ some (src, dst)
    → rewrite packet h dst src ≡ some out
    → send_back now packet h p s
      ≡ some (some out, with_gate (lookup_back_inner now p s.nat.gate).1 s)
unfolding send_back
send_back-some now packet out h p s src dst e k = rw (e, send_back) (rw k refl)

process_tcp_back :
    (now : ℕ) (packet : List ℕ) (n t p : ℕ) (s : Stack)
    → process_tcp now packet
        (tcp_header n t (listener s.listen_port) (local_end p))
        s.listen_port
        p
        s
      ≡ send_back now packet (tcp_header n t (listener s.listen_port) (local_end p)) p s
unfolding process_tcp
process_tcp_back now packet n t p s = rw (==_self s.listen_port) refl

-- A packet that leaves a stack: it carries a segment between two ends, and its checksums come out.
abbrev pub Leaves : ℕ → ℕ → SocketAddrV4 → SocketAddrV4 → ℕ → ℕ → List ℕ → Type 0
Leaves n t src dst flags offset out = IsTcp n t src dst flags offset out × IsSent n t src dst out

granted_port :
    (now : ℕ) (a d : SocketAddrV4) (g g' : Inner) (p : ℕ)
    → IsConsistent g
    → lookup_inner now a d g ≡ (some p, g')
    → p < 2 ^ 16
granted_port now a d g g' p c e =
    let c' : IsConsistent g' =
      subst (λ r. IsConsistent r.1) e (lookup_inner-IsConsistent now a d g c) in
    let granted : Granted now a d g p g' =
      subst (Outcome now a d g) e (lookup_inner-Outcome now a d g c) in
    omega (arith, c'.range p _ granted.session)

-- A packet to the outside, for whose ends the table grants the port `p`, is sent to the listener
-- from the port `p`, and the table then holds the session.
pub outbound_lem :
    (idna : Str → Option Str) (now : ℕ) (packet : List ℕ) (n t : ℕ) (client server : SocketAddrV4)
    (flags offset : ℕ) (s : Stack) (p : ℕ) (g : Inner)
    → IsConsistent s.nat.gate
    → s.listen_port < 2 ^ 16
    → All IsByte packet
    → length packet < 2 ^ 16
    → IsTcp n t client server flags offset packet
    → IsOutbound s.listen_port client server
    → lookup_inner now client server s.nat.gate ≡ (some p, g)
    → (out : List ℕ) × (process_packet idna now packet s ≡ some (some out, with_gate g s))
      × Leaves n t (local_end p) (listener s.listen_port) flags offset out
      × All IsByte out
      × ((k : ℕ) → 18 ≤ k → n + k < t → at out (n + k) ≡ at packet (n + k))
outbound_lem idna now packet n t client server flags offset s p g c l bytes small carries o e =
    let ok4 : IsIp tun_server = (omega arith, (omega arith, (omega arith, (omega arith, tt)))) in
    let ok4' : IsIp tun_client = (omega arith, (omega arith, (omega arith, (omega arith, tt)))) in
    let (out, done, tcp, sent, good, rest) =
      rewrite_lem packet n t client server flags offset bytes small carries (local_end p)
        (listener s.listen_port) (ok4', granted_port now client server s.nat.gate g p c e)
        (ok4, l) in
    (
      out,
      process_packet_tcp idna now packet n t client server flags offset s carries
          ∙ process_tcp_out now packet n t client server s o
          ∙ send_out-some now packet out _ client.port server.port s p g e done,
      (tcp, sent),
      good,
      rest,
    )

-- There and back. A packet of bytes, of at most 65535 of them, that carries a TCP segment from a
-- program to the outside is sent to the listener when the table, which is consistent, grants a
-- port: from that port of TUN_CLIENT to the listener's port. And whatever reply, with the same
-- bounds, the listener makes to that port is sent to the program as the server's. Both packets
-- carry the flags and the offset that they came with, and the checksums of both come out.
pub process_packet_returns :
    (idna : Str → Option Str) (now later : ℕ) (packet reply : List ℕ) (n t m u : ℕ)
    (client server : SocketAddrV4) (flags offset flags' offset' : ℕ) (s : Stack) (p : ℕ) (g : Inner)
    → IsConsistent s.nat.gate
    → s.listen_port < 2 ^ 16
    → All IsByte packet
    → length packet < 2 ^ 16
    → IsTcp n t client server flags offset packet
    → IsOutbound s.listen_port client server
    → lookup_inner now client server s.nat.gate ≡ (some p, g)
    → All IsByte reply
    → length reply < 2 ^ 16
    → IsTcp m u (listener s.listen_port) (local_end p) flags' offset' reply
    → (out back : List ℕ) × (s' s'' : Stack) × (process_packet idna now packet s
        ≡ some (some out, s'))
      × Leaves n t (local_end p) (listener s.listen_port) flags offset out
      × (process_packet idna later reply s' ≡ some (some back, s''))
      × Leaves m u server client flags' offset' back
process_packet_returns idna now later packet reply n t m u client server flags offset flags' offset'
      s p g c l bytes small carries o e bytes' small' carries' =
    let (out, done, leaves, good, rest) =
      outbound_lem idna now packet n t client server flags offset s p g c l bytes small carries o
        e in
    let (client_ok, server_ok) = ends_of packet n t client server flags offset bytes carries in
    let (back, done', tcp, sent, good', rest') =
      rewrite_lem reply m u (listener s.listen_port) (local_end p) flags' offset' bytes' small'
        carries' server client server_ok client_ok in
    (
      out,
      back,
      with_gate g s,
      _,
      done,
      leaves,
      process_packet_tcp idna later reply m u (listener s.listen_port) (local_end p) flags' offset'
            (with_gate g s) carries'
          ∙ process_tcp_back later reply m u p (with_gate g s)
          ∙ send_back-some later reply back _ p (with_gate g s) client server
              (lookup_back-lookup now later client server s.nat.gate p g c e) done',
      (tcp, sent),
    )

-- ===== src/Stack.antt =====
-- crates/clash-tun/src/stack.rs, lines 163 to 260: what the packet thread of the tunnel does with
-- one IP packet of the device. The packets that it hands to `device.send` and the state of the
-- stack are results; a panic is `none`. `Instant::now()` is the argument `now` and the crate `idna`
-- the argument `idna`.
pub mod Plain
pub mod Segment
pub mod Rewrite
pub mod Session
pub mod Sized
pub mod Datagram
pub mod Answer
pub mod Accept
pub mod Named
pub mod Invariant
pub mod NoPanic
pub mod OverTcp
pub mod Tokens
pub mod Control
mod Tests
use rust_clash.Common.{
  ℕ, ◌+◌, ◌-◌, ◌%◌, ◌^◌, Bool, true, false, not, ◌&&◌, ◌||◌, Option, none, some, List, [], ◌∷◌, leb,
  ◌==◌, if◌then◌else◌, length, take, drop, slice, write, replicate, ◌>>=◌, range, copy_in,
}
use rust_clash.Net.{Ipv4Addr, SocketAddrV4, ip_beq}
use rust_clash.Text.{Str}
use rust_clash.Packet.{
  Ipv4, parse_ipv4, parse_udp, parse_tcp, set_addresses, set_total_length, set_tcp_ports, write_udp,
  update_tcp_checksum,
}
use rust_clash.TcpNat.{TcpNat, Inner, lookup_inner, lookup_back_inner, has_destination}
use rust_clash.FakeIp.{FakeIpPool, lookup_avoiding}
use rust_clash.TcpNat
use rust_clash.FakeIp
use rust_clash.Packet.Indexed.{indexed_parse_ipv4, indexed_parse_udp, indexed_parse_tcp}
use rust_clash.Dns.{build_named_a_response, build_empty_dns}
use rust_clash.Dns.Indexed.{indexed_parse_dns_query}
use rust_clash.Dns.Built.{indexed_build_named_a_response, indexed_build_empty_dns}

-- `TUN_SERVER` and `TUN_CLIENT` of crates/clash-tun/src/routes.rs.
abbrev pub tun_server : Ipv4Addr
tun_server = record { a = 172; b = 19; c = 0; d = 1 }

abbrev pub tun_client : Ipv4Addr
tun_client = record { a = 172; b = 19; c = 0; d = 2 }

-- What the packet thread and the listener share, and the port of the listener.
pub record Stack : Type 0 where
  pub nat : TcpNat
  pub fake_ip : FakeIpPool
  pub listen_port : ℕ

abbrev pub with_gate : Inner → Stack → Stack
with_gate g s = record s { nat = record s.nat { gate = g } }

-- The state that `SystemTcpStack::start` makes.
abbrev pub start : ℕ → ℕ → Stack
start timeout listen_port = record {
  nat = TcpNat.new timeout;
  fake_ip = FakeIp.new;
  listen_port = listen_port;
}

unfoldable pub is_tun_prefix : Ipv4Addr → Bool
is_tun_prefix ip = ip.a == 172 && ip.b == 19 && ip.c == 0 && leb ip.d 3

unfoldable pub is_global_unicast : Ipv4Addr → Bool
is_global_unicast ip =
    if ip.a == 0 || ip.a == 127
    then false
    else if ip.a == 169 && ip.b == 254
    then false
    else if leb 224 ip.a
    then false
    else true

-- The three calls that give a TCP packet its new ends, and the part of it that is sent.
unfoldable pub rewrite : List ℕ → Ipv4 → SocketAddrV4 → SocketAddrV4 → Option (List ℕ)
rewrite packet h src dst = do
  addressed ← set_addresses packet h.header_len src.ip dst.ip
  old ← range addressed h.header_len h.total_len
  segment ← set_tcp_ports old src.port dst.port
  let ported = write h.header_len segment addressed
  changed ← update_tcp_checksum ported h.header_len src.ip dst.ip
  range changed 0 h.total_len

-- The packet sent, if any, and the stack after it.
abbrev pub Sent : Type 0
Sent = Option (List ℕ) × Stack

-- The branch for a packet that the listener sends.
unfoldable pub send_back : ℕ → List ℕ → Ipv4 → ℕ → Stack → Option Sent
unfolding lookup_back_inner rewrite
send_back now packet h tcp_dst s =
    let (found, g) = lookup_back_inner now tcp_dst s.nat.gate in
    elim found [
      | none ↦ some (none, with_gate g s)
      | some (sess_src, sess_dst) ↦ do
        out ← rewrite packet h sess_dst sess_src
        some (some out, with_gate g s)
    ]

-- The last branch, for a packet to the outside.
unfoldable pub send_out : ℕ → List ℕ → Ipv4 → ℕ → ℕ → Stack → Option Sent
unfolding lookup_inner rewrite
send_out now packet h tcp_src tcp_dst s =
    let source : SocketAddrV4 = record { ip = h.src; port = tcp_src } in
    let dest : SocketAddrV4 = record { ip = h.dst; port = tcp_dst } in
    let (found, g) = lookup_inner now source dest s.nat.gate in
    elim found [
      | none ↦ some (none, with_gate g s)
      | some nat_port ↦ do
        out ←
            rewrite packet h (record { ip = tun_client; port = nat_port })
              (record { ip = tun_server; port = s.listen_port })
        some (some out, with_gate g s)
    ]

unfoldable pub process_tcp : ℕ → List ℕ → Ipv4 → ℕ → ℕ → Stack → Option Sent
unfolding send_back send_out is_global_unicast is_tun_prefix
process_tcp now packet h tcp_src tcp_dst s =
    if ip_beq h.src tun_server && tcp_src == s.listen_port
    then send_back now packet h tcp_dst s
    else if ip_beq h.dst tun_server && tcp_dst == s.listen_port
    then some (none, s)
    else if not (is_global_unicast h.dst) || is_tun_prefix h.dst
    then some (none, s)
    else send_out now packet h tcp_src tcp_dst s

-- The packet that carries an answer from port 53 of `dst` to the port `src_port` of `src`.
unfoldable pub wrap_answer : Ipv4Addr → Ipv4Addr → ℕ → List ℕ → Option (List ℕ)
wrap_answer src dst src_port answer = do
  let total = 20 + 8 + length answer
  version ← copy_in 0 (0x45 ∷ []) (replicate total 0)
  lasting ← copy_in 8 (64 ∷ []) version
  blank ← copy_in 9 (17 ∷ []) lasting
  addressed ← set_addresses blank 20 dst src
  sized ← set_total_length addressed (total % 2 ^ 16)
  body ← range sized 20 (length sized)
  datagram ← write_udp body 53 src_port answer dst src
  range (write 20 datagram sized) 0 total

module _ (idna : Str → Option Str) where
  -- The answer to a query, and the pool after it: handle_dns and handle_dns_tcp make it alike.
  unfoldable pub answer_query : ℕ × Str × ℕ → Stack → List ℕ × Stack
  unfolding lookup_avoiding build_named_a_response build_empty_dns
  answer_query (id, qname, qtype) s =
      let (fake, pool) = lookup_avoiding idna (λ ip. has_destination ip s.nat) qname s.fake_ip in
      if qtype == 1
      then (build_named_a_response idna id qname fake, record s { fake_ip = pool })
      else (build_empty_dns idna id qname qtype, s)

  -- And with the indexes of the functions that build the answer checked.
  unfoldable pub indexed_answer_query : ℕ × Str × ℕ → Stack → Option (List ℕ × Stack)
  unfolding lookup_avoiding
  indexed_answer_query (id, qname, qtype) s =
      let (fake, pool) = lookup_avoiding idna (λ ip. has_destination ip s.nat) qname s.fake_ip in
      if qtype == 1
      then (do
        answer ← indexed_build_named_a_response idna id qname fake
        some (answer, record s { fake_ip = pool }))
      else (do answer ← indexed_build_empty_dns idna id qname qtype; some (answer, s))

  unfoldable pub handle_dns : Ipv4Addr → Ipv4Addr → ℕ → List ℕ → Stack → Option Sent
  unfolding indexed_answer_query wrap_answer
  handle_dns src dst src_port payload s = do
    parsed ← indexed_parse_dns_query payload
    elim parsed [
      | none ↦ some (none, s)
      | some query ↦ (do
        (answer, s') ← indexed_answer_query query s
        out ← wrap_answer src dst src_port answer
        some (some out, s'))
    ]

  unfoldable pub process_packet : ℕ → List ℕ → Stack → Option Sent
  unfolding handle_dns process_tcp
  process_packet now packet s = do
    parsed ← indexed_parse_ipv4 packet
    elim parsed [
      | none ↦ some (none, s)
      | some h ↦
          if h.proto == 17
          then (do
            udp ← range packet h.header_len h.total_len
            ports ← indexed_parse_udp udp
            elim ports [
              | none ↦ some (none, s)
              | some (src_port, dst_port, payload_len) ↦
                  if dst_port == 53
                  then (do
                    payload ← range udp 8 (8 + payload_len)
                    handle_dns h.src h.dst src_port payload s)
                  else some (none, s)
            ])
          else if not (h.proto == 6)
          then some (none, s)
          else (do
            tcp ← range packet h.header_len h.total_len
            ports ← indexed_parse_tcp tcp
            elim ports [
              | none ↦ some (none, s)
              | some (tcp_src, tcp_dst, flags, offset) ↦ process_tcp now packet h tcp_src tcp_dst s
            ])
    ]

-- ===== src/Stack/Plain.antt =====
-- crates/clash-tun/src/stack.rs: process_packet and handle_dns without their checks of indexes and
-- slices, and that none of these checks fails.
use rust_clash.Common.{
  ℕ, ◌+◌, ◌-◌, ◌≤◌, ◌≡◌, inl, inr, refl, not, Option, none, some, List, arith, ◌==◌, if◌then◌else◌,
  length, take, slice, write, Bool-cases, Option-cases, ◌>>=◌, range-some,
}
use rust_clash.Net.{Ipv4Addr, SocketAddrV4}
use rust_clash.Text.{Str}
use rust_clash.Packet.{
  Ipv4, parse_ipv4, parse_udp, parse_tcp, set_addresses, set_tcp_ports, update_tcp_checksum,
}
use rust_clash.Packet.Indexed.{
  indexed_parse_ipv4-some, indexed_parse_udp-some, indexed_parse_tcp-some,
}
use rust_clash.FakeIp.{lookup_avoiding}
use rust_clash.TcpNat.{has_destination}
use rust_clash.Dns.{parse_dns_query}
use rust_clash.Dns.Indexed.{indexed_parse_dns_query-some}
use rust_clash.Dns.Built.{indexed_build_named_a_response-some, indexed_build_empty_dns-some}
use rust_clash.Stack.{
  Stack, Sent, rewrite, process_tcp, wrap_answer, answer_query, indexed_answer_query, handle_dns,
  process_packet,
}

pub parse_bounds :
    (packet : List ℕ) (h : Ipv4)
    → parse_ipv4 packet ≡ some h
    → (20 ≤ length packet) × (h.header_len ≤ h.total_len) × (h.total_len ≤ length packet)
unfolding parse_ipv4
parse_bounds packet h e = ground arith

parse_udp_bounds :
    (segment : List ℕ) (src dst len : ℕ)
    → parse_udp segment ≡ some (src, dst, len)
    → 8 + len ≤ length segment
unfolding parse_udp
parse_udp_bounds segment src dst len e = ground arith

-- The three calls of `rewrite`, when what they leave is long enough.
pub rewrite_steps :
    (packet one ported three : List ℕ) (h : Ipv4) (src dst : SocketAddrV4)
    → h.header_len ≤ h.total_len
    → h.total_len ≤ length one
    → h.total_len ≤ length three
    → set_addresses packet h.header_len src.ip dst.ip ≡ some one
    → set_tcp_ports (slice one h.header_len (h.total_len - h.header_len)) src.port dst.port
      ≡ some ported
    → update_tcp_checksum (write h.header_len ported one) h.header_len src.ip dst.ip ≡ some three
    → rewrite packet h src dst ≡ some (take h.total_len three)
unfolding rewrite
rewrite_steps packet one ported three h src dst low high out a b c =
    let old = range-some one h.header_len h.total_len low high in
    let sent = range-some three 0 h.total_len (omega arith) out in
    let size : h.total_len - 0 ≡ h.total_len = omega arith in
    rw a (rw old (rw b (rw c (rw (sent, size) refl))))

module _ (idna : Str → Option Str) where
  indexed_answer_query-some :
      (id : ℕ) (qname : Str) (qtype : ℕ) (s : Stack)
      → indexed_answer_query idna (id, qname, qtype) s
        ≡ some (answer_query idna (id, qname, qtype) s)
  unfolding indexed_answer_query answer_query
  indexed_answer_query-some id qname qtype s =
      let fake = (lookup_avoiding idna (λ ip. has_destination ip s.nat) qname s.fake_ip).0 in
      elim (Bool-cases (qtype == 1)) [
        | inl e ↦ rw (e, indexed_build_named_a_response-some idna id qname fake) refl
        | inr e ↦ rw (e, indexed_build_empty_dns-some idna id qname qtype) refl
      ]

  unfoldable pub plain_dns : Ipv4Addr → Ipv4Addr → ℕ → List ℕ → Stack → Option Sent
  plain_dns src dst src_port payload s = elim (parse_dns_query payload) [
    | none ↦ some (none, s)
    | some query ↦
        let (answer, s') = answer_query idna query s in
        (do out ← wrap_answer src dst src_port answer; some (some out, s'))
  ]

  unfoldable pub plain_packet : ℕ → List ℕ → Stack → Option Sent
  plain_packet now packet s = elim (parse_ipv4 packet) [
    | none ↦ some (none, s)
    | some h ↦
        let segment = slice packet h.header_len (h.total_len - h.header_len) in
        if h.proto == 17
        then elim (parse_udp segment) [
          | none ↦ some (none, s)
          | some (src_port, dst_port, payload_len) ↦
              if dst_port == 53
              then handle_dns idna h.src h.dst src_port (slice segment 8 payload_len) s
              else some (none, s)
        ]
        else if not (h.proto == 6)
        then some (none, s)
        else elim (parse_tcp segment) [
          | none ↦ some (none, s)
          | some (tcp_src, tcp_dst, flags, offset) ↦ process_tcp now packet h tcp_src tcp_dst s
        ]
  ]

  pub handle_dns-plain :
      (src dst : Ipv4Addr) (port : ℕ) (payload : List ℕ) (s : Stack)
      → handle_dns idna src dst port payload s ≡ plain_dns src dst port payload s
  unfolding handle_dns plain_dns
  handle_dns-plain src dst port payload s =
      rw (handle_dns, indexed_parse_dns_query-some payload)
        (elim (Option-cases (parse_dns_query payload)) [
          | inl e ↦ rw (plain_dns, e) refl
          | inr ((id, qname, qtype), e) ↦
              rw (plain_dns, e, indexed_answer_query-some id qname qtype s) refl
        ])

  pub process_packet-plain :
      (now : ℕ) (packet : List ℕ) (s : Stack)
      → process_packet idna now packet s ≡ plain_packet now packet s
  unfolding process_packet plain_packet
  process_packet-plain now packet s =
      rw (process_packet, indexed_parse_ipv4-some packet)
        (elim (Option-cases (parse_ipv4 packet)) [
          | inl e ↦ rw (plain_packet, e) refl
          | inr (h, e) ↦
              let (long, low, high) = parse_bounds packet h e in
              let whole = range-some packet h.header_len h.total_len low high in
              let segment = slice packet h.header_len (h.total_len - h.header_len) in
              rw (plain_packet, e)
                (elim (Bool-cases (h.proto == 17)) [
                  | inl udp ↦
                      rw (udp, whole, indexed_parse_udp-some segment)
                        (elim (Option-cases (parse_udp segment)) [
                          | inl f ↦ rw f refl
                          | inr ((src_port, dst_port, len), f) ↦
                              let size : 8 + len - 8 ≡ len = omega arith in
                              rw f (elim (Bool-cases (dst_port == 53)) [
                                | inl dns ↦
                                    rw
                                      (
                                        dns,
                                        range-some segment 8 (8 + len) (omega arith)
                                            (parse_udp_bounds segment src_port dst_port len f),
                                        size,
                                      )
                                      refl
                                | inr other ↦ rw other refl
                              ])
                        ])
                  | inr other ↦ rw other (elim (Bool-cases (not (h.proto == 6))) [
                    | inl unknown ↦ rw unknown refl
                    | inr tcp ↦ rw (tcp, whole, indexed_parse_tcp-some segment) refl
                  ])
                ])
        ])

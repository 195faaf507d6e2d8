-- ===== src/Stack/NoPanic.antt =====
-- crates/clash-tun/src/stack.rs: that the packet thread does not panic, whatever the packet.
use rust_clash.Common.{
  ℕ, ◌+◌, ◌-◌, ◌%◌, ◌^◌, ◌≤◌, ◌≡◌, refl, not, ◌||◌, ◌&&◌, ◌==◌, Option, some, List, ◌++◌, arith,
  length, take, drop, slice, write, replicate, length-append, length-replicate, length-take,
  length-drop, length-write, Bool-cases, Option-cases, inl, inr, ◌>>=◌,
}
use rust_clash.Net.{Ipv4Addr, SocketAddrV4, ip_beq}
use rust_clash.Text.{Str}
use rust_clash.Packet.{Ipv4, parse_ipv4, parse_udp, parse_tcp}
use rust_clash.Packet.Kept.{
  set_addresses-Changed, set_total_length-Changed, set_tcp_ports-some, update_tcp_checksum-some,
  write_udp-some,
}
use rust_clash.TcpNat.{lookup_inner, lookup_back_inner}
use rust_clash.Dns.{parse_dns_query}
use rust_clash.Stack.Plain.{
  parse_bounds, rewrite_steps, plain_dns, plain_packet, handle_dns-plain, process_packet-plain,
}
use rust_clash.Stack.{
  Stack, Sent, send_back, send_out, rewrite, process_tcp, process_packet, answer_query, wrap_answer,
  is_global_unicast, is_tun_prefix, tun_server,
}
use rust_clash.Stack.Sized.{blank_header, wrap_steps}

segment_bounds :
    (segment : List ℕ) (r : ℕ × ℕ × ℕ × ℕ) → parse_tcp segment ≡ some r → 20 ≤ length segment
unfolding parse_tcp
segment_bounds segment r e = ground arith

rewrite-some :
    (packet : List ℕ) (h : Ipv4) (r : ℕ × ℕ × ℕ × ℕ) (src dst : SocketAddrV4)
    → parse_ipv4 packet ≡ some h
    → parse_tcp (slice packet h.header_len (h.total_len - h.header_len)) ≡ some r
    → (out : List ℕ) × (rewrite packet h src dst ≡ some out)
rewrite-some packet h r src dst e f =
    let (long, low, high) = parse_bounds packet h e in
    let n = h.header_len in
    let t = h.total_len in
    let room = segment_bounds _ r f in
    let (one, done, len, first) =
      set_addresses-Changed packet n src.ip dst.ip long (omega (arith, low, high)) in
    let old = slice one n (t - n) in
    let size : length old ≡ t - n =
      omega (arith, len, low, high, length-take (t - n) (drop n one), length-drop n one) in
    let size_old = length-take (t - n) (drop n packet) in
    let (ported, done2, len2) =
      set_tcp_ports-some old src.port dst.port (omega (arith, size, room, size_old)) in
    let joined = length-write n ported one (omega (arith, len2, size, len, low, high)) in
    let (three, done3, len3) =
      update_tcp_checksum-some (write n ported one) n src.ip dst.ip
        (omega (arith, joined, len, long)) (omega (arith, joined, len, low, high)) in
    (
      take t three,
      rewrite_steps packet one ported three h src dst low (omega (arith, len, high))
          (omega (arith, len3, joined, len, high)) done done2 done3,
    )

wrap_answer-some :
    (src dst : Ipv4Addr) (port : ℕ) (answer : List ℕ)
    → (out : List ℕ) × (wrap_answer src dst port answer ≡ some out)
wrap_answer-some src dst port answer =
    let k = 8 + length answer in
    let blank = blank_header ++ replicate k 0 in
    let blank_len : length blank ≡ 20 + k =
      omega (arith, length-append blank_header (replicate k 0), length-replicate {A = ℕ} k 0) in
    let (one, done, len, first) =
      set_addresses-Changed blank 20 dst src (omega (arith, blank_len))
        (omega (arith, blank_len)) in
    let (two, done2, len2, first2) =
      set_total_length-Changed one ((20 + k) % 2 ^ 16) (omega (arith, len, blank_len)) first in
    let (datagram, done3, len3) =
      write_udp-some (drop 20 two) answer 53 port dst src
        (omega (arith, length-drop 20 two, len2, len, blank_len)) in
    (
      take (20 + k) (write 20 datagram two),
      wrap_steps src dst port answer one two datagram (omega (arith, len2, len, blank_len)) len3
          done done2 done3,
    )

-- A result.
abbrev Runs : Option Sent → Type 0
Runs r = (sent : Sent) × (r ≡ some sent)

-- The last two lines of the branches that send.
sends-Runs :
    (m : Option (List ℕ)) (s : Stack)
    → ((out : List ℕ) × (m ≡ some out))
    → Runs (m >>= λ out. some (some out, s))
sends-Runs m s (out, e) = rw e ((some out, s), refl)

process_tcp-Runs :
    (now : ℕ) (packet : List ℕ) (h : Ipv4) (sp dp flags offset : ℕ) (s : Stack)
    → parse_ipv4 packet ≡ some h
    → parse_tcp (slice packet h.header_len (h.total_len - h.header_len))
      ≡ some (sp, dp, flags, offset)
    → Runs (process_tcp now packet h sp dp s)
unfolding process_tcp send_back send_out
process_tcp-Runs now packet h sp dp flags offset s e f =
    let source : SocketAddrV4 = record { ip = h.src; port = sp } in
    let dest : SocketAddrV4 = record { ip = h.dst; port = dp } in
    elim (Bool-cases (ip_beq h.src tun_server && sp == s.listen_port)) [
      | inl mine ↦ rw mine (elim (Option-cases (lookup_back_inner now dp s.nat.gate).0) [
        | inl miss ↦ rw (miss, send_back) (_, refl)
        | inr ((a, b), found) ↦
            rw (found, send_back) (sends-Runs _ _ (rewrite-some packet h _ b a e f))
      ])
      | inr other ↦ rw other (elim (Bool-cases (ip_beq h.dst tun_server && dp == s.listen_port)) [
        | inl inward ↦ rw inward (_, refl)
        | inr outward ↦
            rw outward (elim (Bool-cases (not (is_global_unicast h.dst) || is_tun_prefix h.dst)) [
              | inl special ↦ rw special (_, refl)
              | inr plain ↦
                  rw plain (elim (Option-cases (lookup_inner now source dest s.nat.gate).0) [
                    | inl refused ↦ rw (refused, send_out) (_, refl)
                    | inr (port, granted) ↦
                        rw (granted, send_out) (sends-Runs _ _ (rewrite-some packet h _ _ _ e f))
                  ])
            ])
      ])
    ]

handle_dns-Runs :
    (idna : Str → Option Str) (src dst : Ipv4Addr) (port : ℕ) (payload : List ℕ) (s : Stack)
    → Runs (plain_dns idna src dst port payload s)
unfolding plain_dns
handle_dns-Runs idna src dst port payload s = elim (Option-cases (parse_dns_query payload)) [
  | inl e ↦ rw (e, plain_dns) (_, refl)
  | inr (asked, e) ↦
      rw (e, plain_dns)
        (sends-Runs _ _ (wrap_answer-some src dst port (answer_query idna asked s).0))
]

plain_packet-Runs :
    (idna : Str → Option Str) (now : ℕ) (packet : List ℕ) (s : Stack)
    → Runs (plain_packet idna now packet s)
unfolding plain_packet
plain_packet-Runs idna now packet s = elim (Option-cases (parse_ipv4 packet)) [
  | inl e ↦ rw (e, plain_packet) (_, refl)
  | inr (h, e) ↦
      let segment = slice packet h.header_len (h.total_len - h.header_len) in
      rw (e, plain_packet)
        (elim (Bool-cases (h.proto == 17)) [
          | inl udp ↦ rw udp (elim (Option-cases (parse_udp segment)) [
            | inl f ↦ rw (f, plain_packet) (_, refl)
            | inr ((src_port, dst_port, len), f) ↦
                rw (f, plain_packet)
                  (elim (Bool-cases (dst_port == 53)) [
                    | inl dns ↦
                        rw (dns, handle_dns-plain idna h.src h.dst src_port (slice segment 8 len) s)
                          (handle_dns-Runs idna h.src h.dst src_port (slice segment 8 len) s)
                    | inr other ↦ rw other (_, refl)
                  ])
          ])
          | inr other ↦ rw other (elim (Bool-cases (not (h.proto == 6))) [
            | inl unknown ↦ rw unknown (_, refl)
            | inr tcp ↦ rw tcp (elim (Option-cases (parse_tcp segment)) [
              | inl f ↦ rw (f, plain_packet) (_, refl)
              | inr ((sp, dp, flags, offset), f) ↦
                  rw (f, plain_packet) (process_tcp-Runs now packet h sp dp flags offset s e f)
            ])
          ])
        ])
]

-- Whatever bytes the device delivers and whatever the state, `process_packet` does not panic: none
-- of the indexes, slices, subtractions of lengths and copies into buffers that it makes itself,
-- and that are made in parsing the headers and the query, in rewriting a packet and in building an
-- answer, is out of range.
pub process_packet_runs :
    (idna : Str → Option Str) (now : ℕ) (packet : List ℕ) (s : Stack)
    → (sent : Option (List ℕ) × Stack) × (process_packet idna now packet s ≡ some sent)
process_packet_runs idna now packet s =
    rw (process_packet-plain idna now packet s) (plain_packet-Runs idna now packet s)

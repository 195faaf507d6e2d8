-- ===== src/Stack/Rewrite.antt =====
-- crates/clash-tun/src/stack.rs: what the three calls that give a TCP packet new ends make of it.
use rust_clash.Common.{
  ℕ, ◌+◌, ◌-◌, ◌^◌, ◌<◌, ◌≤◌, ◌≡◌, refl, sym, ◌∙◌, ap, some, List, arith, length, take, drop, at,
  slice, write, All, IsByte, write-All, length-write, at-write_before, at-write_in, take_ext,
  take-take, All-take, All-drop, length-take, length-drop, at-take, at-slice, slice-take,
}
use mathlib.Core.Path.{subst}
use rust_clash.Net.{SocketAddrV4}
use rust_clash.Packet.{
  add32, parse_ipv4, parse_tcp, update_tcp_checksum, fold, sum_words, pseudo_sum,
}
use rust_clash.Packet.Ip.{parse_ipv4_bounds, set_addresses_lem}
use rust_clash.Packet.Tcp.{set_tcp_ports_lem, update_tcp_checksum_lem}
use rust_clash.Stack.Plain.{rewrite_steps}
use rust_clash.Stack.{rewrite}
use rust_clash.Stack.Segment.{
  IsTcp, IsSent, IsAddr, tcp_header, total_of_parse, parse_ipv4_cut, parse_tcp_same,
  parse_tcp_bounds,
}

-- The last two steps: the segment `ported` with its ports stands in the packet `one`, which already
-- has its addresses, and the checksum is made.
module _ (n t : ℕ) (src dst : SocketAddrV4) (flags offset : ℕ) (one ported : List ℕ)
    (s : IsAddr src) (d : IsAddr dst) (good : All IsByte one) (good_ported : All IsByte ported)
    (small : length one < 2 ^ 16) (size : length ported ≡ t - n)
    (bounds : (20 ≤ n) × (n + 20 ≤ t) × (t ≤ length one))
    (parsed : parse_ipv4 one ≡ some (tcp_header n t src dst)) where
  abbrev joined : List ℕ
  joined = write n ported one

  -- What the checksum leaves of the header, of the first bytes of the segment, and of the rest.
  checksummed :
      (three : List ℕ) × (update_tcp_checksum joined n src.ip dst.ip ≡ some three)
      × (length three ≡ length one)
      × All IsByte three
      × (fold (add32 (pseudo_sum src.ip dst.ip 6 (t - n)) (sum_words (slice three n (t - n)))) ≡ 0)
      × ((j : ℕ) → j < n → at three j ≡ at one j)
      × ((k : ℕ) → k < 16 → at three (n + k) ≡ at ported k)
      × ((k : ℕ) → 18 ≤ k → n + k < t → at three (n + k) ≡ at ported k)
  checksummed =
      let (long, room, high) = bounds in
      let len_two = length-write n ported one (omega (arith, size)) in
      let (total, low, top) =
        total_of_parse one joined _ parsed len_two
          (at-write_before n 2 ported one (omega arith) (omega arith))
          (at-write_before n 3 ported one (omega arith) (omega arith)) in
      let (three, done, len, sum, good3, before, behind) =
        update_tcp_checksum_lem joined n src.ip dst.ip
          (write-All IsByte n ported one good_ported good) s.0 d.0 (omega (arith, len_two))
          (omega arith) (omega (arith, total)) (omega (arith, len_two)) in
      (
        three,
        done,
        len ∙ len_two,
        good3,
        subst
            (λ k.
              fold (add32 (pseudo_sum src.ip dst.ip 6 (k - n)) (sum_words (slice three n (k - n))))
              ≡ 0)
            total sum,
        λ j h. before j (omega arith) ∙ at-write_before n j ported one h (omega arith),
        λ k h.
            before (n + k) (omega arith)
            ∙ at-write_in n k ported one (omega (arith, size)) (omega arith),
        λ k b h.
            behind (n + k) (omega arith)
            ∙ at-write_in n k ported one (omega (arith, size)) (omega arith),
      )

  whole_segment :
      (three : List ℕ)
      → length three ≡ length one
      → parse_tcp ported ≡ some (src.port, dst.port, flags, offset)
      → fold (sum_words (take n one)) ≡ 0
      → fold (add32 (pseudo_sum src.ip dst.ip 6 (t - n)) (sum_words (slice three n (t - n)))) ≡ 0
      → ((j : ℕ) → j < n → at three j ≡ at one j)
      → ((k : ℕ) → k < 16 → at three (n + k) ≡ at ported k)
      → IsTcp n t src dst flags offset (take t three) × IsSent n t src dst (take t three)
  whole_segment three len ports header_sum sum front middle =
      let (long, room, high) = bounds in
      let out_len : length (take t three) ≡ t = omega (arith, length-take t three, len) in
      let in_out : (j : ℕ) → j < 14 → at (slice (take t three) n (t - n)) j ≡ at ported j = λ j h.
        at-slice n (t - n) j (take t three) (omega arith)
        ∙ at-take t (n + j) three (omega arith)
        ∙ middle j (omega arith) in
      let cut : length (slice (take t three) n (t - n)) ≡ length ported = omega (
        arith,
        out_len,
        size,
        length-take (t - n) (drop n (take t three)),
        length-drop n (take t three),
      ) in
      (
        record {
          parsed =
              parse_ipv4_cut one (take t three) _ parsed out_len
                (λ j h. at-take t j three (omega arith) ∙ front j (omega arith));
          ports = parse_tcp_same ported (slice (take t three) n (t - n)) cut in_out ∙ ports;
        },
        record {
          size = out_len;
          header_sum =
              ap (λ l. fold (sum_words l))
                (take-take n t three (omega arith) ∙ take_ext n three one len front)
              ∙ header_sum;
          segment_sum =
              ap (λ l. fold (add32 (pseudo_sum src.ip dst.ip 6 (t - n)) (sum_words l)))
                (slice-take n (t - n) t three (omega arith))
              ∙ sum;
        },
      )

module _ (packet : List ℕ) (n t : ℕ) (from to : SocketAddrV4) (flags offset : ℕ)
    (bytes : All IsByte packet) (small : length packet < 2 ^ 16)
    (carries : IsTcp n t from to flags offset packet) where
  -- The header's bounds, and that the segment is long enough.
  room_in_packet :
      (20 ≤ n)
      × (n < 64)
      × (n + 20 ≤ t)
      × (t ≤ length packet)
      × (length (slice packet n (t - n)) ≡ t - n)
  room_in_packet =
      let (long, fits, short) = parse_ipv4_bounds packet _ carries.parsed in
      let (total, low, high) = total_of_parse packet packet _ carries.parsed refl refl refl in
      let segment = parse_tcp_bounds _ _ _ _ _ carries.ports in
      let size = length-take (t - n) (drop n packet) in
      let behind = length-drop n packet in
      (
        long,
        short,
        omega (arith, segment, size, behind, high, low),
        high,
        omega (arith, size, behind, high, low),
      )

  -- The segment of a packet of that length that agrees behind the header.
  segment_same :
      (other : List ℕ)
      → length other ≡ length packet
      → ((j : ℕ) → 20 ≤ j → at other j ≡ at packet j)
      → parse_tcp (slice other n (t - n)) ≡ parse_tcp (slice packet n (t - n))
  segment_same other len behind =
      let (long, short, room, high, size) = room_in_packet in
      parse_tcp_same (slice packet n (t - n)) (slice other n (t - n))
        (omega (arith, size, len, length-take (t - n) (drop n other), length-drop n other))
        (λ j h.
          at-slice n (t - n) j other (omega arith)
          ∙ behind (n + j) (omega arith)
          ∙ sym (at-slice n (t - n) j packet (omega arith)))

  -- On a packet of at most 65535 bytes that carries a TCP segment, with ends of octets and of ports
  -- of 16 bits, `rewrite` succeeds: what is sent carries the same flags and offset between the new
  -- ends, both of its checksums come out, and behind the segment's
  -- checksum all bytes are as they were.
  pub rewrite_lem :
      (src dst : SocketAddrV4)
      → IsAddr src
      → IsAddr dst
      → (out : List ℕ) × (rewrite packet (tcp_header n t from to) src dst ≡ some out)
        × IsTcp n t src dst flags offset out
        × IsSent n t src dst out
        × All IsByte out
        × ((k : ℕ) → 18 ≤ k → n + k < t → at out (n + k) ≡ at packet (n + k))
  rewrite_lem src dst s d =
      let (long, short, room, high, size) = room_in_packet in
      let (one, done1, parsed1, sum1, behind1, before1, len1, good1) =
        set_addresses_lem packet _ src.ip dst.ip bytes s.0 d.0 carries.parsed in
      let segment = slice one n (t - n) in
      let (ported, done2, parsed2, len2, good2, behind2) =
        set_tcp_ports_lem segment _ _ flags offset src.port dst.port
          (segment_same one len1 behind1 ∙ carries.ports) s.1 d.1 in
      let size2 : length ported ≡ t - n =
        omega (arith, len2, len1, high, length-take (t - n) (drop n one), length-drop n one) in
      let (three, done3, len3, good3, sum3, front, middle, behind3) =
        checksummed n t src dst flags offset one ported s d good1
          (good2 (All-take IsByte (t - n) _ (All-drop IsByte n one good1))) (omega (arith, len1))
          size2 (long, room, omega (arith, high, len1)) parsed1 in
      let joined = length-write n ported one (omega (arith, size2, len1, high)) in
      let (tcp, sent) =
        whole_segment n t src dst flags offset one ported s d good1
          (good2 (All-take IsByte (t - n) _ (All-drop IsByte n one good1))) (omega (arith, len1))
          size2 (long, room, omega (arith, high, len1)) parsed1 three len3 parsed2 sum1 sum3 front
          middle in
      (
        take t three,
        rewrite_steps packet one ported three (tcp_header n t from to) src dst (omega arith)
            (omega (arith, len1, high)) (omega (arith, len3, joined, len1, high)) done1 done2 done3,
        tcp,
        sent,
        All-take IsByte t three good3,
        λ k b h.
            at-take t (n + k) three h
            ∙ behind3 k b h
            ∙ behind2 k (omega arith)
            ∙ at-slice n (t - n) k one (omega arith)
            ∙ behind1 (n + k) (omega arith),
      )

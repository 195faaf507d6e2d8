-- ===== src/Packet.antt =====
-- crates/clash-tun/src/packet.rs: IPv4, UDP and TCP headers inside a mutable buffer, and their
-- checksums. A buffer is the list of its bytes; an operation that changes it and indexes outside
-- of it panics, and answers `none`. The parsers answer None as `none`, and read 0 outside of the
-- buffer; Packet/Indexed has them with their panics. `x >> 4` is `x / 2 ^ 4`, `x & 0x0F` is `x % 2
-- ^ 4`, and `(a << 8) | b` of two bytes is `from_be16 a b`. Sums are of 32 bits and wrap around.
pub mod Sum
pub mod Checksum
pub mod Ip
pub mod Udp
pub mod Tcp
pub mod Indexed
pub mod Kept
mod Tests
use rust_clash.Common.{
  ℕ, zero, suc, ◌+◌, ◌-◌, ◌*◌, ◌/◌, ◌%◌, ◌^◌, Bool, ◌&&◌, ◌||◌, not, Option, none, some, List, [],
  ◌∷◌, ltb, leb, ◌==◌, if◌then◌else◌, length, take, at, slice, write, be16, from_be16,
}
use rust_clash.Net.{Ipv4Addr, octets}

-- `sum += x` on a `u32`.
abbrev pub add32 : ℕ → ℕ → ℕ
add32 sum x = (sum + x) % 2 ^ 32

-- The loop of `fold`, for at most `rounds` rounds.
unfoldable pub fold_loop : ℕ → ℕ → ℕ
fold_loop zero sum = sum
fold_loop (suc rounds) sum =
    let next = fold_loop rounds (sum % 2 ^ 16 + sum / 2 ^ 16) in
    if ltb 0xffff sum then next else sum

unfoldable pub fold : ℕ → ℕ
unfolding fold_loop
fold sum = 0xffff - fold_loop 2 sum % 2 ^ 16

unfoldable pub sum_words_from : ℕ → List ℕ → ℕ
sum_words_from sum [] = sum
sum_words_from sum (a ∷ []) = add32 sum (a * 2 ^ 8)
sum_words_from sum (a ∷ b ∷ bytes) = sum_words_from (add32 sum (from_be16 a b)) bytes

unfoldable pub sum_words : List ℕ → ℕ
unfolding sum_words_from
sum_words bytes = sum_words_from 0 bytes

unfoldable pub add_ip : ℕ → Ipv4Addr → ℕ
add_ip sum ip = add32 (add32 sum (from_be16 ip.a ip.b)) (from_be16 ip.c ip.d)

pub record Ipv4 : Type 0 where
  pub header_len : ℕ
  pub proto : ℕ
  pub src : Ipv4Addr
  pub dst : Ipv4Addr
  pub total_len : ℕ

-- The four bytes at `i` as an address.
abbrev pub ip_at : List ℕ → ℕ → Ipv4Addr
ip_at packet i = record {
  a = at packet i;
  b = at packet (i + 1);
  c = at packet (i + 2);
  d = at packet (i + 3);
}

abbrev pub word_at : List ℕ → ℕ → ℕ
word_at buf i = from_be16 (at buf i) (at buf (i + 1))

unfoldable pub parse_ipv4 : List ℕ → Option Ipv4
parse_ipv4 packet =
    let header_len = at packet 0 % 2 ^ 4 * 4 in
    let total_len = word_at packet 2 in
    if ltb (length packet) 20
    then none
    else if not (at packet 0 / 2 ^ 4 == 4)
    then none
    else if ltb header_len 20 || ltb (length packet) header_len
    then none
    else some (record {
      header_len = header_len;
      proto = at packet 9;
      src = ip_at packet 12;
      dst = ip_at packet 16;
      total_len =
          if ltb total_len header_len || ltb (length packet) total_len
          then length packet
          else total_len;
    })

unfoldable pub update_ip_checksum : List ℕ → ℕ → Option (List ℕ)
unfolding fold sum_words
update_ip_checksum packet header_len =
    let zeroed = write 10 (0 ∷ 0 ∷ []) packet in
    if ltb (length packet) 12 || ltb (length packet) header_len
    then none
    else some (write 10 (be16 (fold (sum_words (take header_len zeroed)))) zeroed)

unfoldable pub set_addresses : List ℕ → ℕ → Ipv4Addr → Ipv4Addr → Option (List ℕ)
unfolding update_ip_checksum
set_addresses packet header_len src dst =
    if ltb (length packet) 20
    then none
    else update_ip_checksum (write 16 (octets dst) (write 12 (octets src) packet)) header_len

unfoldable pub set_total_length : List ℕ → ℕ → Option (List ℕ)
unfolding update_ip_checksum
set_total_length packet total_len =
    if ltb (length packet) 4
    then none
    else let changed = write 2 (be16 total_len) packet in
      update_ip_checksum changed (at changed 0 % 2 ^ 4 * 4)

-- The ports and the length of the payload.
unfoldable pub parse_udp : List ℕ → Option (ℕ × ℕ × ℕ)
parse_udp segment =
    let udp_len = word_at segment 4 in
    if ltb (length segment) 8
    then none
    else some (
      word_at segment 0,
      word_at segment 2,
      (if ltb udp_len 8 || ltb (length segment) udp_len then length segment else udp_len) - 8,
    )

-- The sum of the pseudo header.
unfoldable pub pseudo_sum : Ipv4Addr → Ipv4Addr → ℕ → ℕ → ℕ
unfolding add_ip
pseudo_sum src dst proto len = add32 (add32 (add_ip (add_ip 0 src) dst) proto) len

unfoldable pub write_udp : List ℕ → ℕ → ℕ → List ℕ → Ipv4Addr → Ipv4Addr → Option (List ℕ)
unfolding fold sum_words pseudo_sum
write_udp segment src_port dst_port payload src dst =
    let udp_len = 8 + length payload in
    let ports = write 2 (be16 dst_port) (write 0 (be16 src_port) segment) in
    let header = write 6 (0 ∷ 0 ∷ []) (write 4 (be16 udp_len) ports) in
    let filled = write 8 payload header in
    let csum = fold (add32 (pseudo_sum src dst 17 udp_len) (sum_words (take udp_len filled))) in
    if ltb (length segment) udp_len
    then none
    else some (write 6 (be16 (if csum == 0 then 0xffff else csum)) filled)

-- The ports, the flags and the offset of the data.
unfoldable pub parse_tcp : List ℕ → Option (ℕ × ℕ × ℕ × ℕ)
parse_tcp segment =
    let data_off = at segment 12 / 2 ^ 4 * 4 in
    if ltb (length segment) 20
    then none
    else if ltb data_off 20 || ltb (length segment) data_off
    then none
    else some (word_at segment 0, word_at segment 2, at segment 13, data_off)

unfoldable pub set_tcp_ports : List ℕ → ℕ → ℕ → Option (List ℕ)
set_tcp_ports segment src dst =
    if ltb (length segment) 4 then none else some (write 2 (be16 dst) (write 0 (be16 src) segment))

-- The length that the checksum of a TCP packet covers, with the IPv4 header.
unfoldable pub tcp_total : List ℕ → ℕ → ℕ
tcp_total packet ip_hdr_len =
    let hdr_total = word_at packet 2 in
    if leb ip_hdr_len hdr_total && leb hdr_total (length packet) then hdr_total else length packet

-- `total_len - ip_hdr_len` that would be negative panics, or wraps around and makes the next
-- index panic; and so does the slice up to `total_len`, behind the two bytes of the checksum.
unfoldable pub update_tcp_checksum : List ℕ → ℕ → Ipv4Addr → Ipv4Addr → Option (List ℕ)
unfolding tcp_total fold sum_words pseudo_sum
update_tcp_checksum packet ip_hdr_len src dst =
    let total_len = tcp_total packet ip_hdr_len in
    let tcp_len = total_len - ip_hdr_len in
    let zeroed = write (ip_hdr_len + 16) (0 ∷ 0 ∷ []) packet in
    let sum = add32 (pseudo_sum src dst 6 tcp_len) (sum_words (slice zeroed ip_hdr_len tcp_len)) in
    if ltb (length packet) 4 || ltb total_len ip_hdr_len
    then none
    else if ltb tcp_len 20
    then some packet
    else if ltb (length packet) total_len
    then none
    else some (write (ip_hdr_len + 16) (be16 (fold sum)) zeroed)

-- ===== src/Packet/Indexed.antt =====
-- crates/clash-tun/src/packet.rs: the three parsers with every index checked, so that `none` is a
-- panic and `some none` the answer None. They answer what the parsers of Packet do.
use rust_clash.Common.{
  ℕ, ◌+◌, ◌*◌, ◌/◌, ◌%◌, ◌^◌, ◌≤◌, ◌≡◌, inl, inr, refl, ◌||◌, not, Option, none, some, List, arith,
  ltb, ◌==◌, if◌then◌else◌, length, at, Bool-cases, ◌>>=◌, index, index_be16, minus, index-some,
  index_be16-some, minus-some,
}
use rust_clash.Net.{Ipv4Addr}
use rust_clash.Packet.{Ipv4, word_at, ip_at, parse_ipv4, parse_udp, parse_tcp}

-- `Ipv4Addr::new` of four bytes.
unfoldable pub indexed_ip : List ℕ → ℕ → Option Ipv4Addr
indexed_ip packet i = do
  a ← index packet i
  b ← index packet (i + 1)
  c ← index packet (i + 2)
  d ← index packet (i + 3)
  some (record { a = a; b = b; c = c; d = d })

unfoldable pub indexed_parse_ipv4 : List ℕ → Option (Option Ipv4)
unfolding indexed_ip
indexed_parse_ipv4 packet = if ltb (length packet) 20 then some none else (do
  first ← index packet 0
  let header_len = first % 2 ^ 4 * 4
  (if not (first / 2 ^ 4 == 4)
      then some none
      else if ltb header_len 20 || ltb (length packet) header_len
      then some none
      else (do
        total ← index_be16 packet 2
        proto ← index packet 9
        src ← indexed_ip packet 12
        dst ← indexed_ip packet 16
        some (
            some (record {
              header_len = header_len;
              proto = proto;
              src = src;
              dst = dst;
              total_len =
                  if ltb total header_len || ltb (length packet) total
                  then length packet
                  else total;
            })))))

unfoldable pub indexed_parse_udp : List ℕ → Option (Option (ℕ × ℕ × ℕ))
indexed_parse_udp segment = if ltb (length segment) 8 then some none else (do
  src ← index_be16 segment 0
  dst ← index_be16 segment 2
  len ← index_be16 segment 4
  payload_len ← minus (if ltb len 8 || ltb (length segment) len then length segment else len) 8
  some (some (src, dst, payload_len)))

unfoldable pub indexed_parse_tcp : List ℕ → Option (Option (ℕ × ℕ × ℕ × ℕ))
indexed_parse_tcp segment = if ltb (length segment) 20 then some none else (do
  src ← index_be16 segment 0
  dst ← index_be16 segment 2
  offset ← index segment 12
  let data_off = offset / 2 ^ 4 * 4
  (if ltb data_off 20 || ltb (length segment) data_off
      then some none
      else (do flags ← index segment 13; some (some (src, dst, flags, data_off)))))

indexed_ip-some :
    (packet : List ℕ) (i : ℕ) → i + 4 ≤ length packet → indexed_ip packet i ≡ some (ip_at packet i)
unfolding indexed_ip
indexed_ip-some packet i h =
    rw
      (
        indexed_ip,
        index-some packet i (omega arith),
        index-some packet (i + 1) (omega arith),
        index-some packet (i + 2) (omega arith),
        index-some packet (i + 3) (omega arith),
      )
      refl

pub indexed_parse_ipv4-some :
    (packet : List ℕ) → indexed_parse_ipv4 packet ≡ some (parse_ipv4 packet)
unfolding indexed_parse_ipv4 parse_ipv4
indexed_parse_ipv4-some packet = elim (Bool-cases (ltb (length packet) 20)) [
  | inl short ↦ rw (indexed_parse_ipv4, parse_ipv4, short) refl
  | inr long ↦
      let header_len = at packet 0 % 2 ^ 4 * 4 in
      rw (indexed_parse_ipv4, parse_ipv4, long, index-some packet 0 (ground arith))
        (elim (Bool-cases (not (at packet 0 / 2 ^ 4 == 4))) [
          | inl other ↦ rw other refl
          | inr four ↦
              rw four (elim (Bool-cases (ltb header_len 20 || ltb (length packet) header_len)) [
                | inl bad ↦ rw bad refl
                | inr good ↦
                    rw
                      (
                        good,
                        index_be16-some packet 2 (ground arith),
                        index-some packet 9 (ground arith),
                        indexed_ip-some packet 12 (ground arith),
                        indexed_ip-some packet 16 (ground arith),
                      )
                      refl
              ])
        ])
]

pub indexed_parse_udp-some :
    (segment : List ℕ) → indexed_parse_udp segment ≡ some (parse_udp segment)
unfolding indexed_parse_udp parse_udp
indexed_parse_udp-some segment = elim (Bool-cases (ltb (length segment) 8)) [
  | inl short ↦ rw (indexed_parse_udp, parse_udp, short) refl
  | inr long ↦
      let len = word_at segment 4 in
      let udp_len = if ltb len 8 || ltb (length segment) len then length segment else len in
      let enough : 8 ≤ udp_len = ground arith in
      rw
        (
          indexed_parse_udp,
          parse_udp,
          long,
          index_be16-some segment 0 (ground arith),
          index_be16-some segment 2 (ground arith),
          index_be16-some segment 4 (ground arith),
          minus-some udp_len 8 enough,
        )
        refl
]

pub indexed_parse_tcp-some :
    (segment : List ℕ) → indexed_parse_tcp segment ≡ some (parse_tcp segment)
unfolding indexed_parse_tcp parse_tcp
indexed_parse_tcp-some segment = elim (Bool-cases (ltb (length segment) 20)) [
  | inl short ↦ rw (indexed_parse_tcp, parse_tcp, short) refl
  | inr long ↦
      let data_off = at segment 12 / 2 ^ 4 * 4 in
      rw
        (
          indexed_parse_tcp,
          parse_tcp,
          long,
          index_be16-some segment 0 (ground arith),
          index_be16-some segment 2 (ground arith),
          index-some segment 12 (ground arith),
        )
        (elim (Bool-cases (ltb data_off 20 || ltb (length segment) data_off)) [
          | inl bad ↦ rw bad refl
          | inr good ↦ rw (good, index-some segment 13 (ground arith)) refl
        ])
]

-- ===== src/Packet/Ip.antt =====
-- crates/clash-tun/src/packet.rs: what parse_ipv4 reads after set_addresses, and that the header's
-- checksum then comes out.
use rust_clash.Common.{
  ℕ, ◌+◌, ◌<◌, ◌≤◌, ◌≡◌, refl, ◌∙◌, false, some, List, [], ◌∷◌, arith, ltb, length, take, at, write,
  be16, All, IsByte, write-All, length-write, at-write_before, at-write_in, at-write_above,
  All-take, length-take,
}
use rust_clash.Net.{Ipv4Addr, octets, IsIp}
use rust_clash.Packet.{Ipv4, parse_ipv4, update_ip_checksum, set_addresses, fold, sum_words}
use rust_clash.Packet.Sum.{word_sum, sum_words_exact, fold_complement}
use rust_clash.Packet.Checksum.{fold-write_checksum}

-- Where the reads of parse_ipv4 agree, but for the addresses, so do its answers.
parse_ipv4_same :
    (p q : List ℕ) (src dst : Ipv4Addr) (h : Ipv4)
    → length q ≡ length p
    → at q 0 ≡ at p 0
    → at q 2 ≡ at p 2
    → at q 3 ≡ at p 3
    → at q 9 ≡ at p 9
    → (at q 12 ≡ src.a) × (at q 13 ≡ src.b) × (at q 14 ≡ src.c) × (at q 15 ≡ src.d)
    → (at q 16 ≡ dst.a) × (at q 17 ≡ dst.b) × (at q 18 ≡ dst.c) × (at q 19 ≡ dst.d)
    → parse_ipv4 p ≡ some h
    → parse_ipv4 q
      ≡ some (record {
        header_len = h.header_len;
        proto = h.proto;
        src = src;
        dst = dst;
        total_len = h.total_len;
      })
unfolding parse_ipv4
parse_ipv4_same p q src dst h e e0 e2 e3 e9 s d k =
    rw (e, e0, e2, e3, e9, s.0, s.1, s.2, s.3, d.0, d.1, d.2, d.3) (ground arith)

-- The header of a packet that parses.
pub parse_ipv4_bounds :
    (p : List ℕ) (h : Ipv4)
    → parse_ipv4 p ≡ some h
    → (20 ≤ h.header_len) × (h.header_len ≤ length p) × (h.header_len < 64)
unfolding parse_ipv4
parse_ipv4_bounds p h k = ground arith

-- The header's checksum, computed and written, comes out.
pub fold-update_ip_checksum :
    (packet : List ℕ) (header_len : ℕ)
    → All IsByte packet
    → 12 ≤ header_len
    → header_len < 64
    → header_len ≤ length packet
    → (changed : List ℕ) × (update_ip_checksum packet header_len ≡ some changed)
      × (fold (sum_words (take header_len changed)) ≡ 0)
      × (length changed ≡ length packet)
      × ((j : ℕ) → j < 10 → at changed j ≡ at packet j)
      × ((j : ℕ) → 12 ≤ j → at changed j ≡ at packet j)
      × All IsByte changed
unfolding update_ip_checksum
fold-update_ip_checksum packet n bytes long short fits =
    let zeroed = write 10 (0 ∷ 0 ∷ []) packet in
    let same_length = length-write 10 (0 ∷ 0 ∷ []) packet (omega arith) in
    let zeroed_bytes =
      write-All IsByte 10 (0 ∷ 0 ∷ []) packet (omega arith, (omega arith, tt)) bytes in
    let (exact, bound) =
      sum_words_exact (take n zeroed) (All-take IsByte n zeroed zeroed_bytes)
        (omega (arith, length-take n zeroed)) in
    let sum = word_sum (take n zeroed) in
    let c = fold sum in
    let changed = write 10 (be16 c) zeroed in
    let changed_bytes =
      write-All IsByte 10 (be16 c) zeroed (omega arith, (omega arith, tt)) zeroed_bytes in
    let again =
      sum_words_exact (take n changed) (All-take IsByte n changed changed_bytes)
        (omega (arith, length-take n changed)) in
    let low : ltb (length packet) 12 ≡ false = ground arith in
    let within : ltb (length packet) n ≡ false = ground arith in
    (
      changed,
      rw (low, within, exact) refl,
      fold-write_checksum 10 n 0 sum (sum_words (take n changed)) packet refl (omega arith)
          (omega arith) (omega arith) (omega arith) c (fold_complement sum (omega arith))
          (omega (arith, again)),
      length-write 10 (be16 c) zeroed (omega (arith, same_length)) ∙ same_length,
      λ j h.
          at-write_before 10 j (be16 c) zeroed h (omega (arith, same_length))
          ∙ at-write_before 10 j (0 ∷ 0 ∷ []) packet h (omega arith),
      λ j h.
          at-write_above 10 j (be16 c) zeroed h (omega (arith, same_length))
          ∙ at-write_above 10 j (0 ∷ 0 ∷ []) packet h (omega arith),
      changed_bytes,
    )

-- What set_addresses makes of a packet that parses, with the length of the result, that it
-- consists of bytes, and its first bytes.
pub set_addresses_lem :
    (packet : List ℕ) (h : Ipv4) (src dst : Ipv4Addr)
    → All IsByte packet
    → IsIp src
    → IsIp dst
    → parse_ipv4 packet ≡ some h
    → (changed : List ℕ) × (set_addresses packet h.header_len src dst ≡ some changed)
      × (parse_ipv4 changed
          ≡ some (record {
            header_len = h.header_len;
            proto = h.proto;
            src = src;
            dst = dst;
            total_len = h.total_len;
          }))
      × (fold (sum_words (take h.header_len changed)) ≡ 0)
      × ((j : ℕ) → 20 ≤ j → at changed j ≡ at packet j)
      × ((j : ℕ) → j < 10 → at changed j ≡ at packet j)
      × (length changed ≡ length packet)
      × All IsByte changed
unfolding set_addresses
set_addresses_lem packet h src dst bytes s d e =
    let (long, fits, short) = parse_ipv4_bounds packet h e in
    let one = write 12 (octets src) packet in
    let two = write 16 (octets dst) one in
    let length_one = length-write 12 (octets src) packet (omega arith) in
    let length_two = length-write 16 (octets dst) one (omega (arith, length_one)) in
    let two_bytes =
      write-All IsByte 16 (octets dst) one d (write-All IsByte 12 (octets src) packet s bytes) in
    let (changed, done, sum, len, low, high, good) =
      fold-update_ip_checksum two h.header_len two_bytes (omega arith) short
        (omega (arith, length_one, length_two)) in
    let enough : ltb (length packet) 20 ≡ false = ground arith in
    let in_src : (k : ℕ) → k < 4 → at changed (12 + k) ≡ at (octets src) k = λ k b.
      high (12 + k) (omega arith)
      ∙ at-write_before 16 (12 + k) (octets dst) one (omega arith) (omega (arith, length_one))
      ∙ at-write_in 12 k (octets src) packet b (omega arith) in
    let in_dst : (k : ℕ) → k < 4 → at changed (16 + k) ≡ at (octets dst) k = λ k b.
      high (16 + k) (omega arith)
      ∙ at-write_in 16 k (octets dst) one b (omega (arith, length_one)) in
    let before : (j : ℕ) → j < 10 → at changed j ≡ at packet j = λ j b.
      low j b
      ∙ at-write_before 16 j (octets dst) one (omega arith) (omega (arith, length_one))
      ∙ at-write_before 12 j (octets src) packet (omega arith) (omega arith) in
    (
      changed,
      rw enough done,
      parse_ipv4_same packet changed src dst h (len ∙ length_two ∙ length_one)
          (before 0 (omega arith)) (before 2 (omega arith)) (before 3 (omega arith))
          (before 9 (omega arith))
          (
            in_src 0 (omega arith),
            in_src 1 (omega arith),
            in_src 2 (omega arith),
            in_src 3 (omega arith),
          )
          (
            in_dst 0 (omega arith),
            in_dst 1 (omega arith),
            in_dst 2 (omega arith),
            in_dst 3 (omega arith),
          )
          e,
      sum,
      λ j b.
          high j (omega arith)
          ∙ at-write_above 16 j (octets dst) one b (omega (arith, length_one))
          ∙ at-write_above 12 j (octets src) packet (omega arith) (omega arith),
      before,
      len ∙ length_two ∙ length_one,
      good,
    )

-- On a packet of bytes that parse_ipv4 reads, set_addresses succeeds with the header length that
-- was read; parse_ipv4 then reads the new addresses and all else as before, the checksum of the
-- header comes out, and what follows the 20 bytes is as it was.
pub parse_ipv4-set_addresses :
    (packet : List ℕ) (h : Ipv4) (src dst : Ipv4Addr)
    → All IsByte packet
    → IsIp src
    → IsIp dst
    → parse_ipv4 packet ≡ some h
    → (changed : List ℕ) × (set_addresses packet h.header_len src dst ≡ some changed)
      × (parse_ipv4 changed
          ≡ some (record {
            header_len = h.header_len;
            proto = h.proto;
            src = src;
            dst = dst;
            total_len = h.total_len;
          }))
      × (fold (sum_words (take h.header_len changed)) ≡ 0)
      × ((j : ℕ) → 20 ≤ j → at changed j ≡ at packet j)
parse_ipv4-set_addresses packet h src dst bytes s d e =
    let (changed, done, parsed, sum, behind, _, _, _) =
      set_addresses_lem packet h src dst bytes s d e in
    (changed, done, parsed, sum, behind)

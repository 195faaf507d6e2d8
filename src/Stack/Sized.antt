-- ===== src/Stack/Sized.antt =====
-- crates/clash-tun/src/stack.rs: the header of the packet that carries a DNS answer.
use rust_clash.Common.{
  copy_in-some, range-some, take_all, length-drop, slice, drop, ◌-◌, ℕ, suc, ◌+◌, ◌%◌, ◌*◌, ◌^◌,
  zero, ◌<◌, ◌≤◌, ◌≡◌, refl, ◌∙◌, some, List, [], ◌∷◌, ◌++◌, arith, length, take, at, write, be16,
  from_be16, replicate, ltb, false, bytes_of_check, append-All, length-replicate, All, IsByte,
  length-write, at-write_before, at-write_in, at-write_above, write-All,
}
use rust_clash.Net.{Ipv4Addr}
use rust_clash.Stack.{wrap_answer}
use rust_clash.Packet.{
  set_addresses, write_udp, Ipv4, parse_ipv4, set_total_length, fold, sum_words,
}
use rust_clash.Packet.Ip.{parse_ipv4_bounds, fold-update_ip_checksum}

abbrev pub udp_header : ℕ → ℕ → Ipv4Addr → Ipv4Addr → Ipv4
udp_header n t src dst = record { header_len = n; proto = 17; src = src; dst = dst; total_len = t }

abbrev pub blank_header : List ℕ
blank_header =
    0x45 ∷ 0 ∷ 0 ∷ 0 ∷ 0 ∷ 0 ∷ 0 ∷ 0 ∷ 64 ∷ 17 ∷ 0 ∷ 0 ∷ 0 ∷ 0 ∷ 0 ∷ 0 ∷ 0 ∷ 0 ∷ 0 ∷ 0 ∷ []

-- The buffer with the three bytes that are set first.
pub blank_shape :
    (k : ℕ)
    → write 9 (17 ∷ []) (write 8 (64 ∷ []) (write 0 (0x45 ∷ []) (replicate (20 + k) 0)))
      ≡ blank_header ++ replicate k 0
blank_shape k =
    let e : 20 + k
        ≡ suc (
            suc (
              suc (
                suc (
                  suc (
                    suc (
                      suc (
                        suc (
                          suc (
                            suc (
                              suc
                                (suc (suc (suc (suc (suc (suc (suc (suc (suc k))))))))))))))))))) =
      omega arith in
    rw e refl

abbrev pub no_ip : Ipv4Addr
no_ip = record { a = 0; b = 0; c = 0; d = 0 }

pub parse_ipv4_blank :
    (k : ℕ) → parse_ipv4 (blank_header ++ replicate k 0) ≡ some (udp_header 20 (20 + k) no_ip no_ip)
unfolding parse_ipv4
parse_ipv4_blank k = ground (arith, length-replicate {A = ℕ} k 0)

zeros-All : (k : ℕ) → All IsByte (replicate k 0)
zeros-All zero = tt
zeros-All (suc k) = (omega arith, zeros-All k)

-- The twenty bytes, checked one by one.
pub blank-All : (k : ℕ) → All IsByte (blank_header ++ replicate k 0)
blank-All k =
    append-All IsByte blank_header (replicate k 0) (bytes_of_check blank_header refl) (zeros-All k)

-- A packet that differs from one that parses in its length field, which is now right.
pub parse_ipv4_sized :
    (p q : List ℕ) (h : Ipv4) (total : ℕ)
    → parse_ipv4 p ≡ some h
    → length p ≡ total
    → length q ≡ total
    → at q 0 ≡ at p 0
    → at q 9 ≡ at p 9
    → ((j : ℕ) → 12 ≤ j → j < 20 → at q j ≡ at p j)
    → from_be16 (at q 2) (at q 3) ≡ total
    → parse_ipv4 q
      ≡ some (record {
        header_len = h.header_len;
        proto = h.proto;
        src = h.src;
        dst = h.dst;
        total_len = total;
      })
unfolding parse_ipv4
parse_ipv4_sized p q h total e size len e0 e9 same word =
    rw
      (
        e0,
        e9,
        same 12 (omega arith) (omega arith),
        same 13 (omega arith) (omega arith),
        same 14 (omega arith) (omega arith),
        same 15 (omega arith) (omega arith),
        same 16 (omega arith) (omega arith),
        same 17 (omega arith) (omega arith),
        same 18 (omega arith) (omega arith),
        same 19 (omega arith) (omega arith),
        len,
        word,
      )
      (ground arith)

-- The header length that set_total_length takes from the packet, after it has written the length.
pub set_total_length_lem :
    (packet : List ℕ) (h : Ipv4) (total : ℕ)
    → All IsByte packet
    → parse_ipv4 packet ≡ some h
    → length packet ≡ total
    → total < 2 ^ 16
    → at packet 0 ≡ 0x45
    → (changed : List ℕ) × (set_total_length packet (total % 2 ^ 16) ≡ some changed)
      × (length changed ≡ total)
      × All IsByte changed
      × (fold (sum_words (take 20 changed)) ≡ 0)
      × (at changed 0 ≡ at packet 0)
      × (at changed 9 ≡ at packet 9)
      × ((j : ℕ) → 12 ≤ j → at changed j ≡ at packet j)
      × (from_be16 (at changed 2) (at changed 3) ≡ total)
unfolding set_total_length
set_total_length_lem packet h total bytes e size small version =
    let (long, fits, short) = parse_ipv4_bounds packet h e in
    let one = write 2 (be16 (total % 2 ^ 16)) packet in
    let len_one = length-write 2 (be16 (total % 2 ^ 16)) packet (omega arith) in
    let first : at one 0 ≡ 0x45 =
      at-write_before 2 0 (be16 (total % 2 ^ 16)) packet (omega arith) (omega arith) ∙ version in
    let header : at one 0 % 2 ^ 4 * 4 ≡ 20 = omega (arith, first) in
    let (changed, done, sum, len, low, high, good) =
      fold-update_ip_checksum one 20
        (write-All IsByte 2 (be16 (total % 2 ^ 16)) packet (omega arith, (omega arith, tt)) bytes)
        (omega arith) (omega arith) (omega (arith, len_one)) in
    let enough : ltb (length packet) 4 ≡ false = ground arith in
    (
      changed,
      rw (enough, header) done,
      len ∙ len_one ∙ size,
      good,
      sum,
      low 0 (omega arith)
          ∙ at-write_before 2 0 (be16 (total % 2 ^ 16)) packet (omega arith) (omega arith),
      low 9 (omega arith)
          ∙ at-write_above 2 9 (be16 (total % 2 ^ 16)) packet (omega arith) (omega arith),
      λ j h.
          high j h ∙ at-write_above 2 j (be16 (total % 2 ^ 16)) packet (omega arith) (omega arith),
      omega (
        arith,
        low 2 (omega arith),
        low 3 (omega arith),
        at-write_in 2 0 (be16 (total % 2 ^ 16)) packet (omega arith) (omega arith),
        at-write_in 2 1 (be16 (total % 2 ^ 16)) packet (omega arith) (omega arith),
      ),
    )

-- The steps of `wrap_answer`, when none of them fails.
pub wrap_steps :
    (src dst : Ipv4Addr) (port : ℕ) (answer one two datagram : List ℕ)
    → length two ≡ 28 + length answer
    → length datagram ≡ length (drop 20 two)
    → set_addresses (blank_header ++ replicate (8 + length answer) 0) 20 dst src ≡ some one
    → set_total_length one ((20 + (8 + length answer)) % 2 ^ 16) ≡ some two
    → write_udp (drop 20 two) 53 port answer dst src ≡ some datagram
    → wrap_answer src dst port answer
      ≡ some (take (20 + (8 + length answer)) (write 20 datagram two))
unfolding wrap_answer
wrap_steps src dst port answer one two datagram size same a b c =
    let k = 8 + length answer in
    let n = 20 + k in
    let total : 20 + 8 + length answer ≡ n = omega arith in
    let zero_byte : ℕ = 0 in
    let zeros : List ℕ = replicate n 0 in
    let first : List ℕ = write 0 (0x45 ∷ []) zeros in
    let second : List ℕ = write 8 (64 ∷ []) first in
    let (d0, l0) =
      copy_in-some n 0 (0x45 ∷ []) zeros (length-replicate n zero_byte) (omega arith) in
    let (d1, l1) = copy_in-some n 8 (64 ∷ []) first l0 (omega arith) in
    let (d2, l2) = copy_in-some n 9 (17 ∷ []) second l1 (omega arith) in
    let rest = length-drop 20 two in
    let body = range-some two 20 (length two) (omega (arith, size)) (omega arith) in
    let whole : slice two 20 (length two - 20) ≡ drop 20 two =
      take_all (drop 20 two) (length two - 20) (omega (arith, rest)) in
    let out = length-write 20 datagram two (omega (arith, size, same, rest)) in
    let sent = range-some (write 20 datagram two) 0 n (omega arith) (omega (arith, out, size)) in
    let plain : n - 0 ≡ n = omega arith in
    rw (total, d0, d1, d2, blank_shape k, a) (rw b (rw (body, whole, c) (rw (sent, plain) refl)))

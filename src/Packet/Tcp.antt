-- ===== src/Packet/Tcp.antt =====
-- crates/clash-tun/src/packet.rs: the checksum of a TCP segment, and its ports.
use rust_clash.Common.{
  ℕ, zero, suc, ◌+◌, ◌-◌, ◌^◌, ◌<◌, ◌≤◌, ◌≡◌, refl, ◌∙◌, ap, false, some, List, [], ◌∷◌, arith, ltb,
  length, take, drop, at, slice, write, be16, All, IsByte, write-All, length-write, at-write_before,
  at-write_in, at-write_above, All-take, All-drop, length-take, length-drop, from_be16-be16,
}
use Prim.Native.Nat.add
use rust_clash.Net.{Ipv4Addr, IsIp}
use rust_clash.Packet.{
  add32, parse_tcp, set_tcp_ports, update_tcp_checksum, tcp_total, fold, sum_words, pseudo_sum,
}
use rust_clash.Packet.Sum.{word_sum, sum_words_exact, fold_complement, pseudo_sum_bound}
use rust_clash.Packet.Checksum.{fold-write_checksum}

-- A write behind the first `n` bytes, seen from there.
drop-write_behind :
    (n i : ℕ) (part buf : List ℕ)
    → n ≤ length buf
    → drop n (write (n + i) part buf) ≡ write i part (drop n buf)
drop-write_behind zero i part buf h = rw (add.zero i) refl
drop-write_behind (suc n) i part [] h = absurd (omega arith)
drop-write_behind (suc n) i part (b ∷ buf) h =
    rw (add.suc n i, add.suc (n + i) (length part)) (drop-write_behind n i part buf (omega arith))

tcp_total_bounds :
    (packet : List ℕ) (n : ℕ)
    → n ≤ length packet
    → (n ≤ tcp_total packet n) × (tcp_total packet n ≤ length packet)
unfolding tcp_total
tcp_total_bounds packet n h = ground arith

-- What update_tcp_checksum makes of such a packet, with the bytes that it leaves alone.
pub update_tcp_checksum_lem :
    (packet : List ℕ) (n : ℕ) (src dst : Ipv4Addr)
    → All IsByte packet
    → IsIp src
    → IsIp dst
    → length packet < 2 ^ 16
    → 4 ≤ n
    → n + 20 ≤ tcp_total packet n
    → n ≤ length packet
    → (changed : List ℕ) × (update_tcp_checksum packet n src dst ≡ some changed)
      × (length changed ≡ length packet)
      × (let len = tcp_total packet n - n in
          fold (add32 (pseudo_sum src dst 6 len) (sum_words (slice changed n len))) ≡ 0)
      × All IsByte changed
      × ((j : ℕ) → j < n + 16 → at changed j ≡ at packet j)
      × ((j : ℕ) → n + 18 ≤ j → at changed j ≡ at packet j)
unfolding update_tcp_checksum
update_tcp_checksum_lem packet n src dst bytes s d small four long fits =
    let (low, high) = tcp_total_bounds packet n fits in
    let len = tcp_total packet n - n in
    let zeros : List ℕ = 0 ∷ 0 ∷ [] in
    let zeroed = write (n + 16) zeros packet in
    let segment = drop n packet in
    let same_length = length-write (n + 16) zeros packet (omega arith) in
    let zeroed_bytes =
      write-All IsByte (n + 16) zeros packet (omega arith, (omega arith, tt)) bytes in
    let (exact, bound) =
      sum_words_exact (slice zeroed n len)
        (All-take IsByte len (drop n zeroed) (All-drop IsByte n zeroed zeroed_bytes))
        (omega (arith, length-take len (drop n zeroed))) in
    let pseudo = pseudo_sum src dst 6 len in
    let pseudo_small = pseudo_sum_bound src dst 6 len s d (omega arith) (omega arith) in
    let sum = add32 pseudo (sum_words (slice zeroed n len)) in
    let c = fold sum in
    let changed = write (n + 16) (be16 c) zeroed in
    let changed_bytes =
      write-All IsByte (n + 16) (be16 c) zeroed (omega arith, (omega arith, tt)) zeroed_bytes in
    let again =
      sum_words_exact (slice changed n len)
        (All-take IsByte len (drop n changed) (All-drop IsByte n changed changed_bytes))
        (omega (arith, length-take len (drop n changed))) in
    let ok4 : ltb (length packet) 4 ≡ false = ground arith in
    let ok : ltb (tcp_total packet n) n ≡ false = ground arith in
    let ok20 : ltb (tcp_total packet n - n) 20 ≡ false = ground arith in
    let whole : ltb (length packet) (tcp_total packet n) ≡ false = ground (arith, high) in
    let seen : drop n zeroed ≡ write 16 zeros segment = drop-write_behind n 16 zeros packet fits in
    let seen_again : drop n changed ≡ write 16 (be16 c) (write 16 zeros segment) =
      drop-write_behind n 16 (be16 c) zeroed (omega (arith, same_length))
      ∙ ap (write 16 (be16 c)) seen in
    let cut : List ℕ → ℕ = λ b. word_sum (take len b) in
    (
      changed,
      rw (ok4, ok, ok20, whole) refl,
      length-write (n + 16) (be16 c) zeroed (omega (arith, same_length)) ∙ same_length,
      fold-write_checksum 16 len pseudo sum (add32 pseudo (sum_words (slice changed n len))) segment
          refl (omega arith) (omega (arith, length-drop n packet))
          (omega (arith, ap cut seen, exact, bound, pseudo_small))
          (omega (arith, exact, bound, pseudo_small)) c (fold_complement sum (omega arith))
          (omega (arith, ap cut seen_again, again.0, again.1, pseudo_small)),
      changed_bytes,
      λ j b.
          at-write_before (n + 16) j (be16 c) zeroed b (omega (arith, same_length))
          ∙ at-write_before (n + 16) j zeros packet b (omega arith),
      λ j b.
          at-write_above (n + 16) j (be16 c) zeroed (omega arith) (omega (arith, same_length))
          ∙ at-write_above (n + 16) j zeros packet (omega arith) (omega arith),
    )

-- On a packet of less than 2 ^ 16 bytes whose segment, of the length that its headers give, has a
-- TCP header, update_tcp_checksum succeeds, and the sum that a receiver makes of the pseudo header
-- and the segment folds to 0.
pub update_tcp_checksum_verifies :
    (packet : List ℕ) (n : ℕ) (src dst : Ipv4Addr)
    → All IsByte packet
    → IsIp src
    → IsIp dst
    → length packet < 2 ^ 16
    → 4 ≤ n
    → n + 20 ≤ tcp_total packet n
    → n ≤ length packet
    → (changed : List ℕ) × (update_tcp_checksum packet n src dst ≡ some changed)
      × (length changed ≡ length packet)
      × (let len = tcp_total packet n - n in
          fold (add32 (pseudo_sum src dst 6 len) (sum_words (slice changed n len))) ≡ 0)
update_tcp_checksum_verifies packet n src dst bytes s d small four long fits =
    let (changed, done, len, sum, _, _, _) =
      update_tcp_checksum_lem packet n src dst bytes s d small four long fits in
    (changed, done, len, sum)

-- What set_tcp_ports makes of such a segment, with the bytes that it leaves alone.
pub set_tcp_ports_lem :
    (segment : List ℕ) (src dst flags offset sp dp : ℕ)
    → parse_tcp segment ≡ some (src, dst, flags, offset)
    → sp < 2 ^ 16
    → dp < 2 ^ 16
    → (changed : List ℕ) × (set_tcp_ports segment sp dp ≡ some changed)
      × (parse_tcp changed ≡ some (sp, dp, flags, offset))
      × (length changed ≡ length segment)
      × (All IsByte segment → All IsByte changed)
      × ((j : ℕ) → 4 ≤ j → at changed j ≡ at segment j)
unfolding set_tcp_ports parse_tcp
set_tcp_ports_lem segment src dst flags offset sp dp e s d =
    let long : 20 ≤ length segment = ground arith in
    let one = write 0 (be16 sp) segment in
    let two = write 2 (be16 dp) one in
    let length_one = length-write 0 (be16 sp) segment (omega arith) in
    let length_two = length-write 2 (be16 dp) one (omega (arith, length_one)) in
    let within : 2 ≤ length one = omega (arith, length_one) in
    let behind : (j : ℕ) → 4 ≤ j → at two j ≡ at segment j = λ j b.
      at-write_above 2 j (be16 dp) one b within
      ∙ at-write_above 0 j (be16 sp) segment (omega arith) (omega arith) in
    let ok : ltb (length segment) 4 ≡ false = ground arith in
    (
      two,
      rw ok refl,
      rw
          (
            length_two ∙ length_one,
            behind 12 (omega arith),
            behind 13 (omega arith),
            at-write_before 2 0 (be16 dp) one (omega arith) within
                ∙ at-write_in 0 0 (be16 sp) segment (omega arith) (omega arith),
            at-write_before 2 1 (be16 dp) one (omega arith) within
                ∙ at-write_in 0 1 (be16 sp) segment (omega arith) (omega arith),
            at-write_in 2 0 (be16 dp) one (omega arith) within,
            at-write_in 2 1 (be16 dp) one (omega arith) within,
            from_be16-be16 sp s,
            from_be16-be16 dp d,
          )
          (ground arith),
      length_two ∙ length_one,
      λ bytes.
          write-All IsByte 2 (be16 dp) one (omega arith, (omega arith, tt))
            (write-All IsByte 0 (be16 sp) segment (omega arith, (omega arith, tt)) bytes),
      behind,
    )

-- On a segment that parse_tcp reads, set_tcp_ports succeeds, and parse_tcp then reads the new ports
-- of 16 bits and the flags and the data offset as before.
parse_tcp-set_tcp_ports :
    (segment : List ℕ) (src dst flags offset sp dp : ℕ)
    → parse_tcp segment ≡ some (src, dst, flags, offset)
    → sp < 2 ^ 16
    → dp < 2 ^ 16
    → (changed : List ℕ) × (set_tcp_ports segment sp dp ≡ some changed)
      × (parse_tcp changed ≡ some (sp, dp, flags, offset))
parse_tcp-set_tcp_ports segment src dst flags offset sp dp e s d =
    let (changed, done, parsed, _, _, _) =
      set_tcp_ports_lem segment src dst flags offset sp dp e s d in
    (changed, done, parsed)

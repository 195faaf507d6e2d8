-- ===== src/Packet/Kept.antt =====
-- crates/clash-tun/src/packet.rs: the functions that change a buffer succeed when it is long enough, and
-- keep its length.
use rust_clash.Common.{
  ℕ, copy_in-some, if◌then◌else◌, ◌+◌, ◌-◌, ◌*◌, ◌%◌, ◌^◌, ◌≤◌, ◌≡◌, refl, ◌∙◌, false, ◌==◌, Option,
  some, List, [], ◌∷◌, arith, ltb, length, take, at, slice, write, be16, length-write,
  at-write_before, Bool-cases, inl, inr,
}
use rust_clash.Net.{Ipv4Addr, octets}
use rust_clash.Packet.{
  update_ip_checksum, set_addresses, set_total_length, set_tcp_ports, write_udp,
  update_tcp_checksum, tcp_total, fold, sum_words, add32, pseudo_sum,
}

-- A result, of the length and with the first byte that the buffer had.
abbrev pub Changed : List ℕ → Option (List ℕ) → Type 0
Changed packet r =
    (changed : List ℕ) × (r ≡ some changed)
    × (length changed ≡ length packet)
    × (at changed 0 ≡ at packet 0)

update_ip_checksum-Changed :
    (packet : List ℕ) (n : ℕ)
    → 12 ≤ length packet
    → n ≤ length packet
    → Changed packet (update_ip_checksum packet n)
unfolding update_ip_checksum
update_ip_checksum-Changed packet n long fits =
    let zeros : List ℕ = 0 ∷ 0 ∷ [] in
    let zeroed = write 10 zeros packet in
    let low : ltb (length packet) 12 ≡ false = ground arith in
    let within : ltb (length packet) n ≡ false = ground arith in
    let len = length-write 10 zeros packet (omega arith) in
    let sum = be16 (fold (sum_words (take n zeroed))) in
    (
      write 10 sum zeroed,
      rw (low, within) refl,
      length-write 10 sum zeroed (omega (arith, len)) ∙ len,
      at-write_before 10 0 sum zeroed (omega arith) (omega (arith, len))
          ∙ at-write_before 10 0 zeros packet (omega arith) (omega arith),
    )

pub set_addresses-Changed :
    (packet : List ℕ) (n : ℕ) (src dst : Ipv4Addr)
    → 20 ≤ length packet
    → n ≤ length packet
    → Changed packet (set_addresses packet n src dst)
unfolding set_addresses
set_addresses-Changed packet n src dst long fits =
    let one = write 12 (octets src) packet in
    let two = write 16 (octets dst) one in
    let len_one = length-write 12 (octets src) packet (omega arith) in
    let len_two = length-write 16 (octets dst) one (omega (arith, len_one)) in
    let (changed, done, len, first) =
      update_ip_checksum-Changed two n (omega (arith, len_one, len_two))
        (omega (arith, len_one, len_two)) in
    let ok : ltb (length packet) 20 ≡ false = ground arith in
    (
      changed,
      rw ok done,
      len ∙ len_two ∙ len_one,
      first
          ∙ at-write_before 16 0 (octets dst) one (omega arith) (omega (arith, len_one))
          ∙ at-write_before 12 0 (octets src) packet (omega arith) (omega arith),
    )

pub set_total_length-Changed :
    (packet : List ℕ) (total : ℕ)
    → 20 ≤ length packet
    → at packet 0 ≡ 0x45
    → Changed packet (set_total_length packet total)
unfolding set_total_length
set_total_length-Changed packet total long version =
    let one = write 2 (be16 total) packet in
    let len_one = length-write 2 (be16 total) packet (omega arith) in
    let first : at one 0 ≡ at packet 0 =
      at-write_before 2 0 (be16 total) packet (omega arith) (omega arith) in
    let header : at one 0 % 2 ^ 4 * 4 ≡ 20 = omega (arith, first, version) in
    let (changed, done, len, same) =
      update_ip_checksum-Changed one 20 (omega (arith, len_one)) (omega (arith, len_one)) in
    let ok : ltb (length packet) 4 ≡ false = ground arith in
    (changed, rw (ok, header) done, len ∙ len_one, same ∙ first)

pub set_tcp_ports-some :
    (segment : List ℕ) (src dst : ℕ)
    → 4 ≤ length segment
    → (changed : List ℕ) × (set_tcp_ports segment src dst ≡ some changed)
      × (length changed ≡ length segment)
unfolding set_tcp_ports
set_tcp_ports-some segment src dst long =
    let one = write 0 (be16 src) segment in
    let len = length-write 0 (be16 src) segment (omega arith) in
    let ok : ltb (length segment) 4 ≡ false = ground arith in
    (write 2 (be16 dst) one, rw ok refl, length-write 2 (be16 dst) one (omega (arith, len)) ∙ len)

pub update_tcp_checksum-some :
    (packet : List ℕ) (n : ℕ) (src dst : Ipv4Addr)
    → 4 ≤ length packet
    → n ≤ length packet
    → (changed : List ℕ) × (update_tcp_checksum packet n src dst ≡ some changed)
      × (length changed ≡ length packet)
unfolding update_tcp_checksum
update_tcp_checksum-some packet n src dst long fits =
    let total = tcp_total packet n in
    let ok4 : ltb (length packet) 4 ≡ false = ground arith in
    let ok : ltb total n ≡ false = unfold tcp_total in ground arith in
    let inside : ltb (length packet) total ≡ false = unfold tcp_total in ground arith in
    rw (ok4, ok)
      (elim (Bool-cases (ltb (total - n) 20)) [
        | inl short ↦ rw short (packet, refl, refl)
        | inr enough ↦
            let zeros : List ℕ = 0 ∷ 0 ∷ [] in
            let zeroed = write (n + 16) zeros packet in
            let len = length-write (n + 16) zeros packet (ground (arith, inside)) in
            let sum =
              fold (
                add32 (pseudo_sum src dst 6 (total - n))
                  (sum_words (slice zeroed n (total - n)))) in
            rw (enough, inside)
              (
                write (n + 16) (be16 sum) zeroed,
                refl,
                length-write (n + 16) (be16 sum) zeroed (ground (arith, inside, len)) ∙ len,
              )
      ])

pub write_udp-some :
    (segment payload : List ℕ) (sp dp : ℕ) (src dst : Ipv4Addr)
    → 8 + length payload ≤ length segment
    → (changed : List ℕ) × (write_udp segment sp dp payload src dst ≡ some changed)
      × (length changed ≡ length segment)
unfolding write_udp
write_udp-some segment payload sp dp src dst fits =
    let ok : ltb (length segment) (8 + length payload) ≡ false = ground arith in
    let n = length segment in
    let zeros : List ℕ = 0 ∷ 0 ∷ [] in
    let udp_len = 8 + length payload in
    let b0 = write 0 (be16 sp) segment in
    let b1 = write 2 (be16 dp) b0 in
    let b2 = write 4 (be16 udp_len) b1 in
    let b3 = write 6 zeros b2 in
    let filled = write 8 payload b3 in
    let csum = fold (add32 (pseudo_sum src dst 17 udp_len) (sum_words (take udp_len filled))) in
    let sum : ℕ = if csum == 0 then 0xffff else csum in
    let (_, l0) = copy_in-some n 0 (be16 sp) segment refl (omega arith) in
    let (_, l1) = copy_in-some n 2 (be16 dp) b0 l0 (omega arith) in
    let (_, l2) = copy_in-some n 4 (be16 udp_len) b1 l1 (omega arith) in
    let (_, l3) = copy_in-some n 6 zeros b2 l2 (omega arith) in
    let (_, l4) = copy_in-some n 8 payload b3 l3 (omega arith) in
    let (_, l5) = copy_in-some n 6 (be16 sum) filled l4 (omega arith) in
    (write 6 (be16 sum) filled, rw ok refl, l5)

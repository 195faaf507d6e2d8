-- ===== src/Packet/Tests.antt =====
-- crates/clash-tun/src/packet.rs: concrete packets.
use rust_clash.Common.{
  ℕ, ◌-◌, ◌≡◌, ◌≢◌, ◌≤◌, refl, some, List, [], ◌∷◌, ◌++◌, arith, replicate, length, at, slice, take,
  from_be16, bytes_of_check,
}
use rust_clash.Net.{Ipv4Addr}
use rust_clash.Packet.{
  Ipv4, add32, parse_ipv4, set_addresses, parse_udp, write_udp, parse_tcp, update_tcp_checksum,
  tcp_total, fold, sum_words, pseudo_sum,
}
use rust_clash.Packet.Ip.{parse_ipv4-set_addresses}
use rust_clash.Packet.Udp.{parse_udp-write_udp, write_udp_verifies}
use rust_clash.Packet.Tcp.{update_tcp_checksum_verifies}

abbrev ip : ℕ → Ipv4Addr
ip k = record { a = 10; b = 0; c = 0; d = k }

-- A TCP segment of 20 bytes in a packet of 40.
abbrev header : List ℕ
header = 0x45 ∷ 0 ∷ 0 ∷ 40 ∷ 0 ∷ 7 ∷ 0x40 ∷ 0 ∷ 64 ∷ 6 ∷ 0 ∷ 0 ∷ 1 ∷ 2 ∷ 3 ∷ 4 ∷ 5 ∷ 6 ∷ 7 ∷ 8 ∷ []

abbrev segment : List ℕ
segment = 0 ∷ 80 ∷ 1 ∷ 0 ∷ replicate 8 9 ++ (0x50 ∷ 0x12 ∷ replicate 6 0)

abbrev packet : List ℕ
packet = header ++ segment

abbrev parsed : Ipv4
parsed = record {
  header_len = 20;
  proto = 6;
  src = record { a = 1; b = 2; c = 3; d = 4 };
  dst = record { a = 5; b = 6; c = 7; d = 8 };
  total_len = 40;
}

packet_parses : parse_ipv4 packet ≡ some parsed
unfolding parse_ipv4
packet_parses = refl

parse_ipv4-set_addresses_example :
    (changed : List ℕ) × (set_addresses packet 20 (ip 1) (ip 2) ≡ some changed)
    × (parse_ipv4 changed
        ≡ some (record { header_len = 20; proto = 6; src = ip 1; dst = ip 2; total_len = 40 }))
    × (fold (sum_words (take 20 changed)) ≡ 0)
    × ((j : ℕ) → 20 ≤ j → at changed j ≡ at packet j)
parse_ipv4-set_addresses_example =
    parse_ipv4-set_addresses packet parsed (ip 1) (ip 2) (bytes_of_check packet refl)
      (bytes_of_check (10 ∷ 0 ∷ 0 ∷ 1 ∷ []) refl) (bytes_of_check (10 ∷ 0 ∷ 0 ∷ 2 ∷ []) refl)
      packet_parses

parse_udp-write_udp_example :
    (changed : List ℕ) × (write_udp (replicate 12 7) 53 1024 (1 ∷ 2 ∷ 3 ∷ []) (ip 1) (ip 2)
      ≡ some changed)
    × (parse_udp changed ≡ some (53, 1024, 3))
    × (slice changed 8 3 ≡ 1 ∷ 2 ∷ 3 ∷ [])
    × (length changed ≡ 12)
parse_udp-write_udp_example =
    parse_udp-write_udp (replicate 12 7) 53 1024 (1 ∷ 2 ∷ 3 ∷ []) (ip 1) (ip 2) (omega arith)
      (omega arith) (omega arith) (omega arith)

write_udp_verifies_example :
    (changed : List ℕ) × (write_udp (replicate 12 7) 53 1024 (1 ∷ 2 ∷ 3 ∷ []) (ip 1) (ip 2)
      ≡ some changed)
    × (from_be16 (at changed 6) (at changed 7) ≢ 0)
    × (fold (add32 (pseudo_sum (ip 1) (ip 2) 17 11) (sum_words (take 11 changed))) ≡ 0)
write_udp_verifies_example =
    write_udp_verifies (replicate 12 7) 53 1024 (1 ∷ 2 ∷ 3 ∷ []) (ip 1) (ip 2)
      (bytes_of_check (1 ∷ 2 ∷ 3 ∷ []) refl) (bytes_of_check (10 ∷ 0 ∷ 0 ∷ 1 ∷ []) refl)
      (bytes_of_check (10 ∷ 0 ∷ 0 ∷ 2 ∷ []) refl) (omega arith) (omega arith)

total_run : tcp_total packet 20 ≡ 40
unfolding tcp_total
total_run = refl

update_tcp_checksum_verifies_example :
    (changed : List ℕ) × (update_tcp_checksum packet 20 (ip 1) (ip 2) ≡ some changed)
    × (length changed ≡ 40)
    × (fold (
          add32
            (pseudo_sum (ip 1) (ip 2) 6 (tcp_total packet 20 - 20))
            (sum_words (slice changed 20 (tcp_total packet 20 - 20))))
        ≡ 0)
update_tcp_checksum_verifies_example =
    update_tcp_checksum_verifies packet 20 (ip 1) (ip 2) (bytes_of_check packet refl)
      (bytes_of_check (10 ∷ 0 ∷ 0 ∷ 1 ∷ []) refl) (bytes_of_check (10 ∷ 0 ∷ 0 ∷ 2 ∷ []) refl)
      (omega arith) (omega arith) (omega (arith, total_run)) (omega arith)

segment_parses : parse_tcp segment ≡ some (80, 256, 0x12, 20)
unfolding parse_tcp
segment_parses = refl

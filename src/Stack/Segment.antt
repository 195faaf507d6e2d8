-- ===== src/Stack/Segment.antt =====
-- crates/clash-tun/src/stack.rs: IP packets that carry a TCP segment between two ends.
use rust_clash.Common.{ℕ, ◌-◌, ◌^◌, ◌<◌, ◌≤◌, ◌≡◌, refl, some, List, arith, length, take, at, slice}
use rust_clash.Net.{SocketAddrV4, IsIp}
use rust_clash.Packet.{Ipv4, add32, parse_ipv4, parse_tcp, tcp_total, fold, sum_words, pseudo_sum}

abbrev pub tcp_header : ℕ → ℕ → SocketAddrV4 → SocketAddrV4 → Ipv4
tcp_header n t src dst = record {
  header_len = n;
  proto = 6;
  src = src.ip;
  dst = dst.ip;
  total_len = t;
}

-- A packet of `t` bytes that carries a TCP segment from `src` to `dst` behind a header of `n`
-- bytes.
pub record IsTcp (n t : ℕ) (src dst : SocketAddrV4) (flags offset : ℕ) (packet : List ℕ)
    : Type 0 where
  pub parsed : parse_ipv4 packet ≡ some (tcp_header n t src dst)
  pub ports : parse_tcp (slice packet n (t - n)) ≡ some (src.port, dst.port, flags, offset)

-- Both of its checksums come out, and it has no bytes behind.
pub record IsSent (n t : ℕ) (src dst : SocketAddrV4) (packet : List ℕ) : Type 0 where
  pub size : length packet ≡ t
  pub header_sum : fold (sum_words (take n packet)) ≡ 0
  pub segment_sum :
      fold (add32 (pseudo_sum src.ip dst.ip 6 (t - n)) (sum_words (slice packet n (t - n)))) ≡ 0

abbrev pub IsPort16 : ℕ → Type 0
IsPort16 p = p < 2 ^ 16

abbrev pub IsAddr : SocketAddrV4 → Type 0
IsAddr a = IsIp a.ip × IsPort16 a.port

-- The length that the checksum covers is the one that parse_ipv4 reads.
pub total_of_parse :
    (p q : List ℕ) (h : Ipv4)
    → parse_ipv4 p ≡ some h
    → length q ≡ length p
    → at q 2 ≡ at p 2
    → at q 3 ≡ at p 3
    → (tcp_total q h.header_len ≡ h.total_len)
      × (h.header_len ≤ h.total_len)
      × (h.total_len ≤ length p)
unfolding parse_ipv4 tcp_total
total_of_parse p q h e len a b = ground (arith, len, a, b)

-- A packet that begins alike and ends where the other's header says parses alike.
pub parse_ipv4_cut :
    (p q : List ℕ) (h : Ipv4)
    → parse_ipv4 p ≡ some h
    → length q ≡ h.total_len
    → ((j : ℕ) → j < 20 → at q j ≡ at p j)
    → parse_ipv4 q ≡ some h
unfolding parse_ipv4
parse_ipv4_cut p q h e len same =
    rw
      (
        same 0 (omega arith),
        same 2 (omega arith),
        same 3 (omega arith),
        same 9 (omega arith),
        same 12 (omega arith),
        same 13 (omega arith),
        same 14 (omega arith),
        same 15 (omega arith),
        same 16 (omega arith),
        same 17 (omega arith),
        same 18 (omega arith),
        same 19 (omega arith),
        len,
      )
      (ground arith)

-- And so with segments.
pub parse_tcp_same :
    (p q : List ℕ)
    → length q ≡ length p
    → ((j : ℕ) → j < 14 → at q j ≡ at p j)
    → parse_tcp q ≡ parse_tcp p
unfolding parse_tcp
parse_tcp_same p q len same =
    rw
      (
        same 0 (omega arith),
        same 1 (omega arith),
        same 2 (omega arith),
        same 3 (omega arith),
        same 12 (omega arith),
        same 13 (omega arith),
        len,
      )
      refl

pub parse_tcp_bounds :
    (p : List ℕ) (src dst flags offset : ℕ)
    → parse_tcp p ≡ some (src, dst, flags, offset)
    → 20 ≤ length p
unfolding parse_tcp
parse_tcp_bounds p src dst flags offset e = ground arith

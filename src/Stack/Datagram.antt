-- ===== src/Stack/Datagram.antt =====
-- crates/clash-tun/src/stack.rs: the packet that carries an answer of the tunnel's DNS server.
use rust_clash.Common.{
  ℕ, ◌+◌, ◌-◌, ◌^◌, ◌<◌, ◌≤◌, ◌≡◌, sym, ◌∙◌, ap, some, List, [], ◌++◌, arith, length, take, drop,
  at, slice, write, from_be16, replicate, take_all, length-append, length-replicate, All, IsByte,
  length-write, at-write_before, length-take, length-drop, at-take, take-write, take-take,
  slice-take, take-append_left, drop-append_left,
}
use mathlib.Core.Path.{subst}
use mathlib.Core.Option.{get_or}
use rust_clash.Net.{Ipv4Addr, IsIp}
use rust_clash.Packet.{add32, parse_ipv4, parse_udp, write_udp, fold, sum_words, pseudo_sum}
use rust_clash.Packet.Ip.{set_addresses_lem}
use rust_clash.Packet.Udp.{parse_udp-write_udp, write_udp_verifies}
use rust_clash.Stack.{wrap_answer}
use rust_clash.Stack.Sized.{
  udp_header, blank_header, no_ip, wrap_steps, parse_ipv4_blank, blank-All, parse_ipv4_sized,
  set_total_length_lem,
}

-- A packet of `t` bytes that carries `payload` in a UDP datagram behind a header of `n` bytes, from
-- the port `sp` of `src` to the port `dp` of `dst`.
pub record IsUdp (n t : ℕ) (src dst : Ipv4Addr) (sp dp : ℕ) (payload packet : List ℕ) : Type 0 where
  pub parsed : parse_ipv4 packet ≡ some (udp_header n t src dst)
  pub ports : parse_udp (slice packet n (t - n)) ≡ some (sp, dp, length payload)
  pub carried : slice (slice packet n (t - n)) 8 (length payload) ≡ payload

-- Both of its checksums come out, and it has no bytes behind.
pub record IsDatagram (n t : ℕ) (src dst : Ipv4Addr) (packet : List ℕ) : Type 0 where
  pub size : length packet ≡ t
  pub header_sum : fold (sum_words (take n packet)) ≡ 0
  pub datagram_sum :
      fold (add32 (pseudo_sum src dst 17 (t - n)) (sum_words (slice packet n (t - n)))) ≡ 0

-- A datagram that fills what stands behind the twenty bytes of a header.
behind_header :
    (sized datagram : List ℕ) (k : ℕ)
    → length sized ≡ 20 + k
    → length datagram ≡ k
    → slice (take (20 + k) (write 20 datagram sized)) 20 k ≡ datagram
behind_header sized datagram k e f =
    let back = drop (20 + length datagram) sized in
    slice-take 20 k (20 + k) (write 20 datagram sized) (omega arith)
    ∙ ap (take k) (
        drop-append_left (take 20 sized) (datagram ++ back) 20
          (omega (arith, length-take 20 sized)))
    ∙ take-append_left datagram back k (sym f)

-- The datagram of write_udp, and its checksum.
write_udp_lem :
    (segment : List ℕ) (sp dp : ℕ) (payload : List ℕ) (src dst : Ipv4Addr)
    → All IsByte payload
    → IsIp src
    → IsIp dst
    → sp < 2 ^ 16
    → dp < 2 ^ 16
    → 8 + length payload < 2 ^ 16
    → length segment ≡ 8 + length payload
    → (changed : List ℕ) × (write_udp segment sp dp payload src dst ≡ some changed)
      × (length changed ≡ 8 + length payload)
      × (parse_udp changed ≡ some (sp, dp, length payload))
      × (slice changed 8 (length payload) ≡ payload)
      × (fold (add32 (pseudo_sum src dst 17 (8 + length payload)) (sum_words changed)) ≡ 0)
write_udp_lem segment sp dp payload src dst bytes s d sport dport small e =
    let len = 8 + length payload in
    let (one, done, ports, carried, len_one) =
      parse_udp-write_udp segment sp dp payload src dst sport dport small (omega (arith, e)) in
    let (two, again, sent, sum) =
      write_udp_verifies segment sp dp payload src dst bytes s d small (omega (arith, e)) in
    let same : two ≡ one = ap (λ o. get_or o []) (sym again ∙ done) in
    let whole : take len one ≡ one = take_all one len (omega (arith, len_one, e)) in
    (
      one,
      done,
      len_one ∙ e,
      ports,
      carried,
      subst (λ c. fold (add32 (pseudo_sum src dst 17 len) (sum_words c)) ≡ 0) whole
          (subst (λ c. fold (add32 (pseudo_sum src dst 17 len) (sum_words (take len c))) ≡ 0) same
            sum),
    )

-- The whole packet: a header that parses, its length written, and the datagram behind it.
whole_packet :
    (one sized datagram payload : List ℕ) (k sp dp : ℕ) (src dst : Ipv4Addr)
    → parse_ipv4 one ≡ some (udp_header 20 (20 + k) src dst)
    → length one ≡ 20 + k
    → length sized ≡ 20 + k
    → length datagram ≡ k
    → fold (sum_words (take 20 sized)) ≡ 0
    → at sized 0 ≡ at one 0
    → at sized 9 ≡ at one 9
    → ((j : ℕ) → 12 ≤ j → at sized j ≡ at one j)
    → from_be16 (at sized 2) (at sized 3) ≡ 20 + k
    → parse_udp datagram ≡ some (sp, dp, length payload)
    → slice datagram 8 (length payload) ≡ payload
    → fold (add32 (pseudo_sum src dst 17 k) (sum_words datagram)) ≡ 0
    → (let out = take (20 + k) (write 20 datagram sized) in
        IsUdp 20 (20 + k) src dst sp dp payload out × IsDatagram 20 (20 + k) src dst out)
whole_packet one sized datagram payload k sp dp src dst parsed one_len sized_len len sum e0 e9 above
      word ports carried datagram_sum =
    let three = write 20 datagram sized in
    let out = take (20 + k) three in
    let behind : 20 + k - 20 ≡ k = omega arith in
    let segment : slice out 20 (20 + k - 20) ≡ datagram =
      rw behind (behind_header sized datagram k sized_len len) in
    let three_len : length three ≡ 20 + k =
      length-write 20 datagram sized (omega (arith, len, sized_len)) ∙ sized_len in
    let out_len : length out ≡ 20 + k = omega (arith, length-take (20 + k) three, three_len) in
    let front : (j : ℕ) → j < 20 → at out j ≡ at sized j = λ j h.
      at-take (20 + k) j three (omega arith)
      ∙ at-write_before 20 j datagram sized h (omega (arith, sized_len)) in
    (
      record {
        parsed =
            parse_ipv4_sized one out _ (20 + k) parsed one_len out_len (front 0 (omega arith) ∙ e0)
              (front 9 (omega arith) ∙ e9) (λ j h b. front j b ∙ above j h)
              (omega (arith, front 2 (omega arith), front 3 (omega arith), word));
        ports = ap parse_udp segment ∙ ports;
        carried = ap (λ l. slice l 8 (length payload)) segment ∙ carried;
      },
      record {
        size = out_len;
        header_sum =
            ap (λ l. fold (sum_words l))
              (take-take 20 (20 + k) three (omega arith)
                ∙ take-write 20 20 datagram sized (omega arith) (omega (arith, sized_len)))
            ∙ sum;
        datagram_sum =
            ap (λ l. fold (add32 (pseudo_sum src dst 17 (20 + k - 20)) (sum_words l))) segment
            ∙ ap (λ n. fold (add32 (pseudo_sum src dst 17 n) (sum_words datagram))) behind
            ∙ datagram_sum;
      },
    )

-- An answer of bytes that fits into a packet is sent from port 53 of the server to the port that
-- asked, and both checksums come out.
pub wrap_answer_lem :
    (src dst : Ipv4Addr) (port : ℕ) (answer : List ℕ)
    → IsIp src
    → IsIp dst
    → port < 2 ^ 16
    → All IsByte answer
    → 28 + length answer < 2 ^ 16
    → (out : List ℕ) × (wrap_answer src dst port answer ≡ some out)
      × IsUdp 20 (20 + (8 + length answer)) dst src 53 port answer out
      × IsDatagram 20 (20 + (8 + length answer)) dst src out
wrap_answer_lem src dst port answer s d p bytes small =
    let k = 8 + length answer in
    let blank = blank_header ++ replicate k 0 in
    let blank_len : length blank ≡ 20 + k =
      omega (arith, length-append blank_header (replicate k 0), length-replicate {A = ℕ} k 0) in
    let (one, done1, parsed1, sum1, behind1, before1, len1, good1) =
      set_addresses_lem blank (udp_header 20 (20 + k) no_ip no_ip) dst src (blank-All k) d s
        (parse_ipv4_blank k) in
    let one_len : length one ≡ 20 + k = len1 ∙ blank_len in
    let (sized, done2, sized_len, good2, sum2, e0, e9, above, word) =
      set_total_length_lem one _ (20 + k) good1 parsed1 one_len (omega arith)
        (before1 0 (omega arith)) in
    let (datagram, done3, len3, ports, carried, sum3) =
      write_udp_lem (drop 20 sized) 53 port answer dst src bytes d s (omega arith) p (omega arith)
        (omega (arith, length-drop 20 sized, sized_len)) in
    let (udp, whole) =
      whole_packet one sized datagram answer k 53 port dst src parsed1 one_len sized_len len3 sum2
        e0 e9 above word ports carried sum3 in
    (
      take (20 + k) (write 20 datagram sized),
      wrap_steps src dst port answer one sized datagram (omega (arith, sized_len))
          (omega (arith, len3, length-drop 20 sized, sized_len)) done1 done2 done3,
      udp,
      whole,
    )

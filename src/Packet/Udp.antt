-- ===== src/Packet/Udp.antt =====
-- crates/clash-tun/src/packet.rs: what parse_udp reads of a datagram that write_udp wrote.
use rust_clash.Common.{
  ℕ, ◌+◌, ◌-◌, ◌%◌, ◌^◌, ◌<◌, ◌≤◌, ◌≡◌, ◌≢◌, refl, sym, ◌∙◌, false, some, List, [], ◌∷◌, ◌++◌,
  arith, ltb, ◌==◌, length, take, drop, at, slice, be16, All, IsByte, if◌then◌else◌, append-All,
  length-drop, length-append, from_be16, from_be16-be16, take-append_left,
}
use rust_clash.Net.{Ipv4Addr, IsIp}
use rust_clash.Packet.{add32, parse_udp, write_udp, fold, sum_words, pseudo_sum}
use rust_clash.Packet.Sum.{word_sum, sum_words_exact, fold_complement, pseudo_sum_bound}
use rust_clash.Packet.Checksum.{fold-write_checksum}

-- A buffer of at least eight bytes, byte by byte.
with_header {κ} :
    (P : List ℕ → Type κ)
    → ((a b c d e f g h : ℕ) (rest : List ℕ) → P (a ∷ b ∷ c ∷ d ∷ e ∷ f ∷ g ∷ h ∷ rest))
    → (buf : List ℕ) → 8 ≤ length buf
    → P buf
with_header P w [] k = absurd (omega arith)
with_header P w (a ∷ []) k = absurd (omega arith)
with_header P w (a ∷ b ∷ []) k = absurd (omega arith)
with_header P w (a ∷ b ∷ c ∷ []) k = absurd (omega arith)
with_header P w (a ∷ b ∷ c ∷ d ∷ []) k = absurd (omega arith)
with_header P w (a ∷ b ∷ c ∷ d ∷ e ∷ []) k = absurd (omega arith)
with_header P w (a ∷ b ∷ c ∷ d ∷ e ∷ f ∷ []) k = absurd (omega arith)
with_header P w (a ∷ b ∷ c ∷ d ∷ e ∷ f ∷ g ∷ []) k = absurd (omega arith)
with_header P w (a ∷ b ∷ c ∷ d ∷ e ∷ f ∷ g ∷ h ∷ rest) k = w a b c d e f g h rest

-- The datagram, with the checksum still zero and with any checksum.
abbrev datagram : ℕ → ℕ → ℕ → List ℕ → List ℕ → List ℕ
datagram csum src_port dst_port payload rest =
    be16 src_port ++ be16 dst_port ++ be16 (8 + length payload) ++ be16 csum ++ payload ++ rest

-- A checksum that is sent: not 0, and the complement of the sum.
abbrev IsChecksum : ℕ → ℕ → Type 0
IsChecksum sum c = (c ≢ 0) × ((c < 2 ^ 16) × ((sum + c) % 65535 ≡ 0) × (0 < sum + c))

sent-IsChecksum :
    (sum : ℕ) → sum < 2 ^ 32 → IsChecksum sum (if fold sum == 0 then 0xffff else fold sum)
sent-IsChecksum sum h = let (a, b, c) = fold_complement sum h in ground arith

explicit :
    (a b c d e f g i : ℕ) (rest : List ℕ) (sp dp : ℕ) (payload : List ℕ) (src dst : Ipv4Addr)
    → (let buf = a ∷ b ∷ c ∷ d ∷ e ∷ f ∷ g ∷ i ∷ rest in
        8 + length payload ≤ length buf
        → (more : List ℕ) × (length (datagram 0 sp dp payload more) ≡ length buf)
          × (let len = 8 + length payload in
              let sum =
                add32
                  (pseudo_sum src dst 17 len)
                  (sum_words (take len (datagram 0 sp dp payload more))) in
              write_udp buf sp dp payload src dst
              ≡ some (datagram (if fold sum == 0 then 0xffff else fold sum) sp dp payload more)))
unfolding write_udp
explicit a b c d e f g i rest sp dp payload src dst h =
    let header = be16 sp ++ be16 dp ++ be16 (8 + length payload) ++ (0 ∷ 0 ∷ rest) in
    let more = drop (8 + length payload) header in
    let fits : ltb (length (a ∷ b ∷ c ∷ d ∷ e ∷ f ∷ g ∷ i ∷ rest)) (8 + length payload) ≡ false =
      ground arith in
    (
      more,
      omega (arith, length-append payload more, length-drop (8 + length payload) header),
      rw fits refl,
    )

-- What write_udp makes of the buffer.
write_udp_shape :
    (segment : List ℕ) (sp dp : ℕ) (payload : List ℕ) (src dst : Ipv4Addr)
    → 8 + length payload ≤ length segment
    → (rest : List ℕ) × (length (datagram 0 sp dp payload rest) ≡ length segment)
      × (let len = 8 + length payload in
          let sum =
            add32
              (pseudo_sum src dst 17 len)
              (sum_words (take len (datagram 0 sp dp payload rest))) in
          write_udp segment sp dp payload src dst
          ≡ some (datagram (if fold sum == 0 then 0xffff else fold sum) sp dp payload rest))
write_udp_shape segment sp dp payload src dst h =
    with_header
      (λ buf.
        8 + length payload ≤ length buf
        → (rest : List ℕ) × (length (datagram 0 sp dp payload rest) ≡ length buf)
          × (let len = 8 + length payload in
              let sum =
                add32 (pseudo_sum src dst 17 len)
                  (sum_words (take len (datagram 0 sp dp payload rest))) in
              write_udp buf sp dp payload src dst
              ≡ some (datagram (if fold sum == 0 then 0xffff else fold sum) sp dp payload rest)))
      (λ a b c d e f g i rest. explicit a b c d e f g i rest sp dp payload src dst) segment
      (omega arith) h

-- With ports of 16 bits and a payload that fits, write_udp succeeds on every segment that is long
-- enough; parse_udp reads the ports and the length back, and the payload stands behind the header.
pub parse_udp-write_udp :
    (segment : List ℕ) (sp dp : ℕ) (payload : List ℕ) (src dst : Ipv4Addr)
    → sp < 2 ^ 16
    → dp < 2 ^ 16
    → 8 + length payload < 2 ^ 16
    → 8 + length payload ≤ length segment
    → (changed : List ℕ) × (write_udp segment sp dp payload src dst ≡ some changed)
      × (parse_udp changed ≡ some (sp, dp, length payload))
      × (slice changed 8 (length payload) ≡ payload)
      × (length changed ≡ length segment)
unfolding parse_udp
parse_udp-write_udp segment sp dp payload src dst s d small fits =
    let (rest, same, done) = write_udp_shape segment sp dp payload src dst fits in
    let len = 8 + length payload in
    let ok8 : ltb (length (datagram 0 sp dp payload rest)) 8 ≡ false = ground arith in
    let low : ltb (8 + length payload) 8 ≡ false = ground arith in
    let high : ltb (length (datagram 0 sp dp payload rest)) (8 + length payload) ≡ false =
      ground arith in
    let cut : 8 + length payload - 8 ≡ length payload = omega arith in
    (
      _,
      done,
      rw (ok8, from_be16-be16 sp s, from_be16-be16 dp d, from_be16-be16 len small, low, high, cut)
          refl,
      take-append_left payload rest (length payload) refl,
      same,
    )

-- The sum over the datagram, which does not wrap around.
datagram_sum :
    (csum sp dp : ℕ) (payload rest : List ℕ)
    → All IsByte payload
    → 8 + length payload < 2 ^ 16
    → (let part = take (8 + length payload) (datagram csum sp dp payload rest) in
        (sum_words part ≡ word_sum part) × (word_sum part ≤ 2 ^ 31))
datagram_sum csum sp dp payload rest bytes small =
    let header = be16 sp ++ be16 dp ++ be16 (8 + length payload) ++ be16 csum in
    let full = header ++ payload in
    let same : take (8 + length payload) (datagram csum sp dp payload rest) ≡ full =
      take-append_left full rest (8 + length payload) (omega arith) in
    rw same (
      sum_words_exact full
        (append-All IsByte header payload
          (
            (omega arith),
            (
              (omega arith),
              (
                (omega arith),
                (
                  (omega arith),
                  ((omega arith), ((omega arith), ((omega arith), ((omega arith), tt)))),
                ),
              ),
            ),
          )
          bytes)
        (omega arith))

-- Under the same conditions, on bytes, the checksum field is not 0, and the sum that a receiver
-- makes of the pseudo header and the datagram folds to 0.
pub write_udp_verifies :
    (segment : List ℕ) (sp dp : ℕ) (payload : List ℕ) (src dst : Ipv4Addr)
    → All IsByte payload
    → IsIp src
    → IsIp dst
    → 8 + length payload < 2 ^ 16
    → 8 + length payload ≤ length segment
    → (changed : List ℕ) × (write_udp segment sp dp payload src dst ≡ some changed)
      × (from_be16 (at changed 6) (at changed 7) ≢ 0)
      × (let len = 8 + length payload in
          fold (add32 (pseudo_sum src dst 17 len) (sum_words (take len changed))) ≡ 0)
write_udp_verifies segment sp dp payload src dst bytes s d small fits =
    let (rest, same, done) = write_udp_shape segment sp dp payload src dst fits in
    let len = 8 + length payload in
    let blank = datagram 0 sp dp payload rest in
    let pseudo = pseudo_sum src dst 17 len in
    let pseudo_small = pseudo_sum_bound src dst 17 len s d (omega arith) (omega arith) in
    let (exact, bound) = datagram_sum 0 sp dp payload rest bytes small in
    let sum = add32 pseudo (sum_words (take len blank)) in
    let c = if fold sum == 0 then 0xffff else fold sum in
    let (sent, valid) = sent-IsChecksum sum (omega (arith, exact, bound, pseudo_small)) in
    let again = datagram_sum c sp dp payload rest bytes small in
    (
      _,
      done,
      λ e. sent (sym (from_be16-be16 c valid.0) ∙ e),
      fold-write_checksum 6 len pseudo sum _ blank refl (omega arith) (omega (arith, same))
          (omega (arith, exact, bound, pseudo_small)) (omega (arith, exact, bound, pseudo_small)) c
          valid (omega (arith, again.0, again.1, pseudo_small)),
    )

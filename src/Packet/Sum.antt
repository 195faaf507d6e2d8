-- ===== src/Packet/Sum.antt =====
-- The Internet checksum: the loop of `fold`, and the sum of a buffer without the wrap-around.
use rust_clash.Common.{
  ℕ, ◌+◌, ◌*◌, ◌%◌, ◌^◌, ◌<◌, ◌≤◌, ◌≡◌, refl, List, [], ◌∷◌, arith, length, All, IsByte, from_be16,
}
use rust_clash.Net.{Ipv4Addr, IsIp}
use rust_clash.Packet.{pseudo_sum, add_ip, fold, fold_loop, sum_words, sum_words_from}

-- The same sum in unbounded numbers.
unfoldable pub word_sum : List ℕ → ℕ
word_sum [] = 0
word_sum (a ∷ []) = a * 2 ^ 8
word_sum (a ∷ b ∷ bytes) = from_be16 a b + word_sum bytes

sum_words_from_lem :
    (sum : ℕ) (bytes : List ℕ)
    → sum < 2 ^ 32
    → sum_words_from sum bytes ≡ (sum + word_sum bytes) % 2 ^ 32
unfolding sum_words_from word_sum
sum_words_from_lem sum [] h = omega arith
sum_words_from_lem sum (a ∷ []) h = refl
sum_words_from_lem sum (a ∷ b ∷ bytes) h =
    omega (arith, sum_words_from_lem ((sum + from_be16 a b) % 2 ^ 32) bytes (omega arith))

pub sum_words_lem : (bytes : List ℕ) → sum_words bytes ≡ word_sum bytes % 2 ^ 32
unfolding sum_words
sum_words_lem bytes = omega (arith, sum_words_from_lem 0 bytes (omega arith))

pub word_sum_bound :
    (bytes : List ℕ) → All IsByte bytes → 2 * word_sum bytes ≤ 65535 * (length bytes + 1)
unfolding word_sum
word_sum_bound [] h = omega arith
word_sum_bound (a ∷ []) h = omega (arith, h.0)
word_sum_bound (a ∷ b ∷ bytes) h = omega (arith, h.0, h.1.0, word_sum_bound bytes h.1.1)

-- On a packet, the sum of 32 bits does not wrap around.
pub sum_words_exact :
    (bytes : List ℕ)
    → All IsByte bytes
    → length bytes < 2 ^ 16
    → (sum_words bytes ≡ word_sum bytes) × (word_sum bytes ≤ 2 ^ 31)
sum_words_exact bytes h k = (
  omega (arith, sum_words_lem bytes, word_sum_bound bytes h),
  omega (arith, word_sum_bound bytes h),
)

-- Two rounds end the loop, keep the sum modulo 65535, and make 0 of 0 alone.
abbrev IsFolded : ℕ → ℕ → Type 0
IsFolded sum r = (r < 2 ^ 16) × (r % 65535 ≡ sum % 65535) × (r ≡ 0 → sum ≡ 0)

fold_loop-IsFolded : (sum : ℕ) → sum < 2 ^ 32 → IsFolded sum (fold_loop 2 sum)
unfolding fold_loop
fold_loop-IsFolded sum h = ground arith

-- `fold` is the complement of the sum in the arithmetic of the checksum.
pub fold_complement :
    (sum : ℕ)
    → sum < 2 ^ 32
    → (fold sum < 2 ^ 16) × ((sum + fold sum) % 65535 ≡ 0) × (0 < sum + fold sum)
unfolding fold
fold_complement sum h = let (small, same, null) = fold_loop-IsFolded sum h in ground arith

pub fold_zero : (sum : ℕ) → sum < 2 ^ 32 → sum % 65535 ≡ 0 → 0 < sum → fold sum ≡ 0
unfolding fold
fold_zero sum h m p = let (small, same, null) = fold_loop-IsFolded sum h in ground arith

-- The sum of the pseudo header, which does not wrap around.
pub pseudo_sum_lem :
    (src dst : Ipv4Addr) (proto len : ℕ)
    → IsIp src
    → IsIp dst
    → proto < 256
    → len < 2 ^ 17
    → pseudo_sum src dst proto len
      ≡ from_be16 src.a src.b
        + from_be16 src.c src.d
        + from_be16 dst.a dst.b
        + from_be16 dst.c dst.d
        + proto
        + len
unfolding pseudo_sum add_ip
pseudo_sum_lem src dst proto len s d p h =
    omega (arith, s.0, s.1.0, s.1.1.0, s.1.1.1.0, d.0, d.1.0, d.1.1.0, d.1.1.1.0)

pub pseudo_sum_bound :
    (src dst : Ipv4Addr) (proto len : ℕ)
    → IsIp src
    → IsIp dst
    → proto < 256
    → len < 2 ^ 17
    → pseudo_sum src dst proto len < 2 ^ 20
pseudo_sum_bound src dst proto len s d p h = omega (
  arith,
  pseudo_sum_lem src dst proto len s d p h,
  s.0,
  s.1.0,
  s.1.1.0,
  s.1.1.1.0,
  d.0,
  d.1.0,
  d.1.1.0,
  d.1.1.1.0,
)

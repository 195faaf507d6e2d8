-- ===== src/Shadowsocks/Nonce.antt =====
-- crates/clash-proxynet/src/ss.rs: NonceSeq counts, so that no nonce comes twice.
use rust_clash.Common.{
  ℕ, zero, suc, ◌+◌, ◌*◌, ◌%◌, ◌^◌, ◌<◌, ◌≡◌, ◌≢◌, refl, ◌∙◌, ap, List, [], ◌∷◌, arith, length, All,
  IsByte, replicate, ◌==◌, Bool-cases, inl, inr,
}
use rust_clash.Shadowsocks.{next, new_nonce}

-- The number that a sequence of bytes stands for, and the numbers that fit into `n` bytes.
value : List ℕ → ℕ
value [] = 0
value (b ∷ buf) = b + 256 * value buf

limit : ℕ → ℕ
limit zero = 1
limit (suc n) = 256 * limit n

length-next : (buf : List ℕ) → length (next buf) ≡ length buf
unfolding next
length-next [] = refl
length-next (b ∷ buf) = elim (Bool-cases ((b + 1) % 2 ^ 8 == 0)) [
  | inl t ↦ rw t (ap suc (length-next buf))
  | inr f ↦ rw f refl
]

next-IsByte : (buf : List ℕ) → All IsByte buf → All IsByte (next buf)
unfolding next
next-IsByte [] h = tt
next-IsByte (b ∷ buf) h = elim (Bool-cases ((b + 1) % 2 ^ 8 == 0)) [
  | inl t ↦ rw t (omega arith, next-IsByte buf h.1)
  | inr f ↦ rw f (omega arith, h.1)
]

-- Below the last value, `next` adds 1.
value-next :
    (buf : List ℕ)
    → All IsByte buf
    → suc (value buf) < limit (length buf)
    → value (next buf) ≡ suc (value buf)
unfolding next value limit
value-next [] h k = absurd (omega arith)
value-next (b ∷ buf) h k = elim (Bool-cases ((b + 1) % 2 ^ 8 == 0)) [
  | inl t ↦
      let last : b ≡ 255 = ground (arith, h.0) in
      let more : suc (value buf) < limit (length buf) = omega arith in
      rw t (omega (arith, value-next buf h.1 more))
  | inr f ↦ rw f (ground (arith, h.0))
]

zeros-IsByte : (n : ℕ) → All IsByte (replicate n 0)
zeros-IsByte zero = tt
zeros-IsByte (suc n) = (omega arith, zeros-IsByte n)

-- The sequence after so many calls of `next` on a new one.
pub nonce_at : ℕ → List ℕ
unfolding next
nonce_at zero = new_nonce
nonce_at (suc n) = next (nonce_at n)

nonce_at-IsByte : (n : ℕ) → All IsByte (nonce_at n)
unfolding nonce_at
nonce_at-IsByte zero = zeros-IsByte 12
nonce_at-IsByte (suc n) = next-IsByte (nonce_at n) (nonce_at-IsByte n)

length-nonce_at : (n : ℕ) → length (nonce_at n) ≡ 12
unfolding nonce_at
length-nonce_at zero = refl
length-nonce_at (suc n) = length-next (nonce_at n) ∙ length-nonce_at n

limit_12 : limit 12 ≡ 2 ^ 96
unfolding limit
limit_12 = refl

value-new_nonce : value new_nonce ≡ 0
unfolding value
value-new_nonce = refl

value-nonce_at : (n : ℕ) → n < 2 ^ 96 → value (nonce_at n) ≡ n
unfolding nonce_at
value-nonce_at zero h = value-new_nonce
value-nonce_at (suc n) h =
    let before = value-nonce_at n (omega arith) in
    let room : limit (length (nonce_at n)) ≡ 2 ^ 96 = rw (length-nonce_at n) limit_12 in
    omega (arith, value-next (nonce_at n) (nonce_at-IsByte n) (omega (arith, before, room)), before)

-- The nonces of the first 2 ^ 96 calls of `next` on a new sequence are all different.
pub nonce_at_distinct : (i j : ℕ) → i < j → j < 2 ^ 96 → nonce_at i ≢ nonce_at j
nonce_at_distinct i j h k e =
    absurd (omega (arith, value-nonce_at i (omega arith), ap value e, value-nonce_at j k))

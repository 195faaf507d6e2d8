-- ===== src/FakeIp/Total.antt =====
-- Why the scan of crates/clash-core/src/dns.rs always finds an address: the window has more
-- addresses than the pool has hosts and the connections of the tunnel have destinations.
use rust_clash.Common.{
  ℕ, zero, suc, ◌≤◌, ◌<◌, ◌≡◌, ◌≢◌, inl, inr, refl, true, false, Bool, List, [], ◌∷◌, arith,
  contains_key, contains, IsNodup, All, length, Bool-cases, ◌||◌, ◌==◌, if◌then◌else◌, IsMap,
  length-le_of_AllIn, ltb, insert, insert-IsMap, length-insert_le, contains_key-insert, ◌+◌, ◌-◌,
  ◌/◌,
}
use rust_clash.Net.{Ipv4Addr, ip_eq, ip_beq}
use rust_clash.Text.{Str}
use rust_clash.FakeIp.{ip_of_bits, is_skipped}
use rust_clash.FakeIp.Window.{slot, InWindow}

is_reserved : Ipv4Addr → Bool
is_reserved ip = ip.d == 0 || ip.d == 255

address : ℕ → ℕ → Ipv4Addr
address v k = ip_of_bits (slot v k)

-- The addresses at the distances below `n` that may be handed out.
goods : ℕ → ℕ → List Ipv4Addr
goods v zero = []
goods v (suc k) =
    let rest = goods v k in if is_reserved (address v k) then rest else address v k ∷ rest

slot_ne : (v j k : ℕ) → j < k → k < 65531 → slot v j ≢ slot v k
slot_ne v j k lt h = omega arith

ip_of_bits_ne :
    (x y : ℕ) → x < 65536 → y < 65536 → x ≢ y → ip_beq (ip_of_bits x) (ip_of_bits y) ≡ false
unfolding ip_of_bits
ip_of_bits_ne x y hx hy n = ground arith

address_injective : (v j k : ℕ) → j < k → k < 65531 → ip_beq (address v j) (address v k) ≡ false
unfolding address
address_injective v j k lt h =
    ip_of_bits_ne (slot v j) (slot v k) (omega arith) (omega arith) (slot_ne v j k lt h)

goods_fresh : (v n j : ℕ) → n ≤ j → j < 65531 → contains (address v j) (goods v n) ≡ false
unfolding goods contains
goods_fresh v zero j le lt = refl
goods_fresh v (suc n) j le lt = ground (arith, goods_fresh v n j, address_injective v n j)

goods-IsNodup : (v n : ℕ) → n ≤ 65531 → IsNodup (goods v n)
unfolding goods
goods-IsNodup v zero h = tt
goods-IsNodup v (suc n) h = ground (arith, goods-IsNodup v n, goods_fresh v n n)

-- How many of the numbers below `x` end in a byte of 0 or 255.
reserved_below : ℕ → ℕ
reserved_below x = x / 256 + (x + 255) / 256

reserved_step :
    (x : ℕ)
    → x < 65536
    → reserved_below (suc x) ≡ reserved_below x + (if is_reserved (ip_of_bits x) then 1 else 0)
unfolding reserved_below is_reserved ip_of_bits
reserved_step x h = ground arith

-- The same along the window: those in front of the end, and those behind the jump back to 4.
reserved_at : ℕ → ℕ → ℕ
reserved_at v n =
    if ltb (v + n) 65535
    then reserved_below (v + n)
    else reserved_below 65535 + reserved_below (v + n - 65531) - reserved_below 4

reserved_at-suc :
    (v n : ℕ)
    → InWindow v
    → n < 65531
    → reserved_at v (suc n) ≡ reserved_at v n + (if is_reserved (address v n) then 1 else 0)
unfolding reserved_at address reserved_below
reserved_at-suc v n w h = elim (Bool-cases (ltb (v + n) 65535)) [
  | inl before ↦
      let same : slot v n ≡ v + n = ground arith in rw same (ground (arith, reserved_step (v + n)))
  | inr after ↦
      let same : slot v n ≡ v + n - 65531 = ground arith in
      rw same (ground (arith, reserved_step (v + n - 65531)))
]

-- The numbers up to a distance either may be handed out or end in such a byte.
length-goods :
    (v n : ℕ) → InWindow v → n ≤ 65531 → length (goods v n) + reserved_at v n ≡ n + reserved_below v
unfolding goods
length-goods v zero w h =
    let start : v + 0 ≡ v = omega arith in unfold reserved_at in rw start (ground arith)
length-goods v (suc n) w h = ground (arith, reserved_at-suc v n w, length-goods v n w)

reserved_bound : (v : ℕ) → InWindow v → reserved_at v 65530 ≤ reserved_below v + 512
unfolding reserved_at reserved_below
reserved_bound v w = ground arith

many-goods : (v : ℕ) → InWindow v → 65018 ≤ length (goods v 65530)
many-goods v w =
    let bound = reserved_bound v w in omega (arith, length-goods v 65530 w (omega arith), bound)

-- The addresses that are taken, and a list of others.
covered : List (Ipv4Addr × Str) → List Ipv4Addr → List (Ipv4Addr × Str)
covered taken [] = taken
covered taken (ip ∷ used) = insert ip [] (covered taken used)

covered-IsMap :
    (taken : List (Ipv4Addr × Str)) (used : List Ipv4Addr)
    → IsMap taken
    → IsMap (covered taken used)
unfolding covered
covered-IsMap taken [] h = h
covered-IsMap taken (ip ∷ used) h = insert-IsMap ip [] _ (covered-IsMap taken used h)

length-covered :
    (taken : List (Ipv4Addr × Str)) (used : List Ipv4Addr)
    → length (covered taken used) ≤ length taken + length used
unfolding covered
length-covered taken [] = omega arith
length-covered taken (ip ∷ used) =
    omega (arith, length-insert_le ip [] (covered taken used), length-covered taken used)

covered_taken :
    (taken : List (Ipv4Addr × Str)) (used : List Ipv4Addr) (ip : Ipv4Addr)
    → (contains_key ip taken || contains ip used) ≡ true
    → contains_key ip (covered taken used) ≡ true
unfolding covered contains
covered_taken taken [] ip h = ground arith
covered_taken taken (x ∷ used) ip h =
    rw contains_key-insert (ground (arith, covered_taken taken used ip))

module _ (in_use : Ipv4Addr → Bool) (used : List Ipv4Addr)
    (listed : (ip : Ipv4Addr) → in_use ip ≡ true → contains ip used ≡ true)
    (taken : List (Ipv4Addr × Str)) where
  taken_of_skipped :
      (ip : Ipv4Addr)
      → is_skipped in_use taken ip ≡ true
      → is_reserved ip ≡ false
      → contains_key ip (covered taken used) ≡ true
  unfolding is_skipped is_reserved
  taken_of_skipped ip s r = covered_taken taken used ip (ground (arith, listed ip))

  goods-taken :
      (v n : ℕ)
      → ((k : ℕ) → k < n → is_skipped in_use taken (ip_of_bits (slot v k)) ≡ true)
      → All (λ ip. contains_key ip (covered taken used) ≡ true) (goods v n)
  unfolding goods address
  goods-taken v zero skipped = tt
  goods-taken v (suc n) skipped =
      let rest = goods-taken v n (λ k lt. skipped k (omega arith)) in
      elim (Bool-cases (is_reserved (address v n))) [
        | inl r ↦ rw r rest
        | inr f ↦ rw f (taken_of_skipped (address v n) (skipped n (omega arith)) f, rest)
      ]

  -- With at most 8191 addresses taken and at most 55536 in use, a scan cannot skip all.
  pub not_all_skipped :
      (v : ℕ)
      → InWindow v
      → IsMap taken
      → length taken ≤ 8191
      → length used ≤ 55536
      → ¬ ((k : ℕ) → k < 65530 → is_skipped in_use taken (ip_of_bits (slot v k)) ≡ true)
  not_all_skipped v w u few less skipped = absurd (
      omega (
        arith,
        many-goods v w,
        length-covered taken used,
        length-le_of_AllIn (goods v 65530) (covered taken used)
            (goods-IsNodup v 65530 (omega arith)) (covered-IsMap taken used u)
            (goods-taken v 65530 skipped),
      ))

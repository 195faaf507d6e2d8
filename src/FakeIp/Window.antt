-- ===== src/FakeIp/Window.antt =====
-- The scan for a free address in crates/clash-core/src/dns.rs against the window of 65531 numbers
-- that it walks.
use rust_clash.Common.{
  ℕ, zero, suc, ◌+◌, ◌-◌, ◌*◌, ◌%◌, ◌≤◌, ◌<◌, ◌≡◌, refl, true, false, Bool, List, Option, none,
  some, arith, lookup, Bool-cases, inl, inr, ◌||◌, ◌==◌, none_of_not-is_some,
}
use rust_clash.Net.{Ipv4Addr, ip_eq}
use rust_clash.Text.{Str}
use rust_clash.FakeIp.{ip_of_bits, advance, is_skipped, scan, is_fake_ip_v4}

abbrev pub InWindow : ℕ → Type 0
InWindow v = (4 ≤ v) × (v ≤ 65534)

-- An address that the pool may hand out: of 198.18.0.0/16, from 198.18.0.4 on, with a last octet
-- that is neither 0 nor 255.
pub record IsPoolIp (ip : Ipv4Addr) : Type 0 where
  pub net : (ip.a ≡ 198) × (ip.b ≡ 18)
  pub high : ip.c < 256
  pub low : (0 < ip.d) × (ip.d < 255)
  pub start : 4 ≤ ip.c * 256 + ip.d

pub advance-InWindow : (v : ℕ) → InWindow v → InWindow (advance v)
unfolding advance
advance-InWindow v h = ground arith

-- Each address of the pool is one that `is_fake_ip` recognises.
pub IsPoolIp-is_fake_ip_v4 : (ip : Ipv4Addr) → IsPoolIp ip → is_fake_ip_v4 ip ≡ true
unfolding is_fake_ip_v4
IsPoolIp-is_fake_ip_v4 ip p = ground arith

-- The number at distance `k`, round the window.
abbrev pub slot : ℕ → ℕ → ℕ
slot v k = 4 + (v - 4 + k) % 65531

pub slot-zero : (v : ℕ) → InWindow v → slot v 0 ≡ v
slot-zero v h = omega arith

pub slot-suc : (v k : ℕ) → InWindow v → slot (advance v) k ≡ slot v (suc k)
unfolding advance
slot-suc v k h = ground arith

module _ (in_use : Ipv4Addr → Bool) (taken : List (Ipv4Addr × Str)) where
  -- What a scan may end with: an address of the pool that neither test rejects.
  abbrev pub IsFound : Option Ipv4Addr → Type 0
  IsFound none = Unit {0}
  IsFound (some ip) = IsPoolIp ip × (lookup ip taken ≡ none) × (in_use ip ≡ false)

  ip_of_bits-IsPoolIp :
      (v : ℕ)
      → InWindow v
      → ((ip_of_bits v).d == 0 || (ip_of_bits v).d == 255) ≡ false
      → IsPoolIp (ip_of_bits v)
  unfolding ip_of_bits
  ip_of_bits-IsPoolIp v h s = record {
    net = (refl, refl);
    high = omega arith;
    low = (ground arith, ground arith);
    start = omega arith;
  }

  IsFound-ip_of_bits :
      (v : ℕ)
      → InWindow v
      → is_skipped in_use taken (ip_of_bits v) ≡ false
      → IsFound (some (ip_of_bits v))
  unfolding is_skipped
  IsFound-ip_of_bits v h s =
      (ip_of_bits-IsPoolIp v h (ground arith), none_of_not-is_some _ (ground arith), ground arith)

  pub scan-IsFound :
      (n v : ℕ)
      → InWindow v
      → IsFound (scan n in_use taken v).0 × InWindow (scan n in_use taken v).1
  unfolding scan
  scan-IsFound zero v h = (tt, h)
  scan-IsFound (suc n) v h = elim (Bool-cases (is_skipped in_use taken (ip_of_bits v))) [
    | inl s ↦ rw s (scan-IsFound n (advance v) (advance-InWindow v h))
    | inr f ↦ rw f (IsFound-ip_of_bits v h f, advance-InWindow v h)
  ]

  -- It finds nothing only if every slot that it tries is skipped.
  pub scan-none :
      (n v k : ℕ)
      → InWindow v
      → (scan n in_use taken v).0 ≡ none
      → k < n
      → is_skipped in_use taken (ip_of_bits (slot v k)) ≡ true
  unfolding scan
  scan-none zero v k h e lt = absurd (omega arith)
  scan-none (suc n) v zero h e lt = elim (Bool-cases (is_skipped in_use taken (ip_of_bits v))) [
    | inl s ↦ rw (slot-zero v h) s
    | inr f ↦ cc (rw f at e)
  ]
  scan-none (suc n) v (suc k) h e lt = elim (Bool-cases (is_skipped in_use taken (ip_of_bits v))) [
    | inl s ↦
        rw (← slot-suc v k h)
          (scan-none n (advance v) k (advance-InWindow v h) (rw s at e) (omega arith))
    | inr f ↦ cc (rw f at e)
  ]

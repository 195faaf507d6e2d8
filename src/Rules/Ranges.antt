-- ===== src/Rules/Ranges.antt =====
-- crates/clash-core/src/rules.rs: action_for_ip by the ranges of addresses that go direct.
use rust_clash.Common.{
  ℕ, ◌+◌, ◌*◌, ◌^◌, ◌<◌, ◌≡◌, refl, Bool, ◌&&◌, ◌||◌, arith, leb, ◌==◌, if◌then◌else◌,
}
use rust_clash.Net.{Ipv4Addr, IpAddr, IsIp}
use rust_clash.Rules.{RuleAction, action_for_ip, is_local}

-- The address as a number of 32 bits.
pub to_u32 : Ipv4Addr → ℕ
to_u32 ip = ip.a * 2 ^ 24 + ip.b * 2 ^ 16 + ip.c * 2 ^ 8 + ip.d

between : ℕ → ℕ → ℕ → Bool
between low high n = leb low n && leb n high

-- 127.0.0.0/8, 10.0.0.0/8, 172.16.0.0/12, 192.168.0.0/16, 169.254.0.0/16, 100.64.0.0/10 and
-- 0.0.0.0.
pub is_direct : ℕ → Bool
is_direct n =
    between 0x7f000000 0x7fffffff n
    || between 0x0a000000 0x0affffff n
    || between 0xac100000 0xac1fffff n
    || between 0xc0a80000 0xc0a8ffff n
    || between 0xa9fe0000 0xa9feffff n
    || between 0x64400000 0x647fffff n
    || n == 0

module _ (ip : Ipv4Addr) (h : IsIp ip) where
  range8 :
      (k : ℕ) → k < 256 → between (k * 2 ^ 24) (k * 2 ^ 24 + 0xffffff) (to_u32 ip) ≡ (ip.a == k)
  unfolding between to_u32
  range8 k b = ground (arith, h.0, h.1.0, h.1.1.0, h.1.1.1.0)

  range16 :
      (k l : ℕ)
      → k < 256
      → l < 256
      → between (k * 2 ^ 24 + l * 2 ^ 16) (k * 2 ^ 24 + l * 2 ^ 16 + 0xffff) (to_u32 ip)
        ≡ (ip.a == k && ip.b == l)
  unfolding between to_u32
  range16 k l b c = ground (arith, h.0, h.1.0, h.1.1.0, h.1.1.1.0)

  range172 : between 0xac100000 0xac1fffff (to_u32 ip) ≡ (ip.a == 172 && leb 16 ip.b && leb ip.b 31)
  unfolding between to_u32
  range172 = ground (arith, h.0, h.1.0, h.1.1.0, h.1.1.1.0)

  range100 :
      between 0x64400000 0x647fffff (to_u32 ip) ≡ (ip.a == 100 && leb 64 ip.b && leb ip.b 127)
  unfolding between to_u32
  range100 = ground (arith, h.0, h.1.0, h.1.1.0, h.1.1.1.0)

  unspecified : (to_u32 ip == 0) ≡ (ip.a == 0 && ip.b == 0 && ip.c == 0 && ip.d == 0)
  unfolding to_u32
  unspecified = ground (arith, h.0, h.1.0, h.1.1.0, h.1.1.1.0)

regroup : (p q r s t : Bool) → ((p || q || r || s) || t) ≡ (p || q || r || s || t)
regroup p q r s t = ground arith

-- An IPv4 address goes direct exactly when its number lies in one of the ranges of the local
-- networks.
pub action_for_ip_lem :
    (ip : Ipv4Addr)
    → IsIp ip
    → action_for_ip (IpAddr.v4 ip)
      ≡ (if is_direct (to_u32 ip) then RuleAction.direct else RuleAction.proxy)
unfolding action_for_ip is_local is_direct
action_for_ip_lem ip h =
    rw
      (
        range8 ip h 127 (omega arith),
        range8 ip h 10 (omega arith),
        range172 ip h,
        range16 ip h 192 168 (omega arith) (omega arith),
        range16 ip h 169 254 (omega arith) (omega arith),
        range100 ip h,
        unspecified ip h,
        regroup (ip.a == 127) (ip.a == 10) _ _ _,
      )
      refl

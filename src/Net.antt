-- ===== src/Net.antt =====
-- Addresses of the Rust standard library: `Ipv4Addr` by its four octets, `SocketAddrV4`, and
-- `IpAddr` with an IPv6 address by its sixteen octets.
use rust_clash.Common.{All, IsByte, ℕ, ◌≡◌, ◌↔◌, Bool, ◌&&◌, List, arith, ◌==◌, Eq, true, [], ◌∷◌}

pub record Ipv4Addr : Type 0 where
  pub a : ℕ
  pub b : ℕ
  pub c : ℕ
  pub d : ℕ

abbrev pub ip_beq : Ipv4Addr → Ipv4Addr → Bool
ip_beq x y = x.a == y.a && x.b == y.b && x.c == y.c && x.d == y.d

pub ip_beq_iff : (x y : Ipv4Addr) → (ip_beq x y ≡ true) ↔ (x ≡ y)
ip_beq_iff x y = ground arith

instance abbrev pub ip_eq : Eq Ipv4Addr
ip_eq = record { beq = ip_beq; beq_iff = ip_beq_iff }

-- `Ipv4Addr::octets`.
abbrev pub octets : Ipv4Addr → List ℕ
octets x = x.a ∷ x.b ∷ x.c ∷ x.d ∷ []

-- Octets as the code stores them.
abbrev pub IsIp : Ipv4Addr → Type 0
IsIp x = All IsByte (octets x)

pub record SocketAddrV4 : Type 0 where
  pub ip : Ipv4Addr
  pub port : ℕ

abbrev pub addr_beq : SocketAddrV4 → SocketAddrV4 → Bool
addr_beq x y = ip_beq x.ip y.ip && x.port == y.port

pub addr_beq_iff : (x y : SocketAddrV4) → (addr_beq x y ≡ true) ↔ (x ≡ y)
addr_beq_iff x y = ground (arith, ip_beq_iff x.ip y.ip)

instance abbrev pub addr_eq : Eq SocketAddrV4
addr_eq = record { beq = addr_beq; beq_iff = addr_beq_iff }

pub data IpAddr : Type 0 where
  v4 : Ipv4Addr → IpAddr
  v6 : List ℕ → IpAddr

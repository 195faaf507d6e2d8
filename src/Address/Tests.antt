-- ===== src/Address/Tests.antt =====
-- crates/clash-proxynet/src/address.rs: a name and a port.
use rust_clash.Common.{
  ℕ, ◌<◌, ◌≤◌, ◌≡◌, ◌⊎◌, Option, none, some, List, [], ◌∷◌, arith, length, take, replicate, refl,
}
use rust_clash.Text.{Str, codes}
use rust_clash.Utf8.{as_bytes}
use rust_clash.Net.{IpAddr}
use rust_clash.Address.{Stored, write_socks_port_last, write_socks_port_first}
use rust_clash.Address.Written.{read_destination, target_of, read_destination-write_socks_port_last}

-- A parser that knows one address.
abbrev known : Str → Option IpAddr
known [] = some (IpAddr.v4 (record { a = 1; b = 2; c = 3; d = 4 }))
known (c ∷ s) = none

port_first_run :
    write_socks_port_first known [] 443 (replicate 9 0)
    ≡ Stored.stored 7 (1 ∷ 187 ∷ 1 ∷ 1 ∷ 2 ∷ 3 ∷ 4 ∷ 0 ∷ 0 ∷ [])
unfolding write_socks_port_first
port_first_run = refl

read_destination-write_socks_port_last_example :
    ((known (codes "a.org") ≡ none)
      × (255 < length (as_bytes (codes "a.org")))
      × (write_socks_port_last known (codes "a.org") 443 (replicate 259 0)
          ≡ Stored.string_too_long))
    ⊎ ((n : ℕ) × (dest : List ℕ) × (write_socks_port_last known
            (codes "a.org")
            443
            (replicate 259 0)
          ≡ Stored.stored n dest)
        × (n ≤ 259)
        × (read_destination (take n dest)
            ≡ some (target_of (known (codes "a.org")) (codes "a.org"), 443)))
read_destination-write_socks_port_last_example =
    read_destination-write_socks_port_last known (codes "a.org") 443 (λ six e. cc e) (omega arith)

-- ===== src/Address.antt =====
-- crates/clash-proxynet/src/address.rs: the address of a destination as the protocols write it.
-- `parse_ip` is the parser of IpAddr. A function that writes into a buffer answers the buffer, too.
pub mod Written
mod Tests
use rust_clash.Common.{
  ℕ, ◌+◌, ◌/◌, ◌%◌, ◌^◌, Option, none, some, List, [], ◌∷◌, ◌++◌, ltb, if◌then◌else◌, length, take,
  drop, write, be16,
}
use rust_clash.Text.{Str}
use rust_clash.Utf8.{as_bytes}
use rust_clash.Net.{IpAddr, octets}

-- So many bytes written, the error StringTooLong, or a panic.
pub data Stored : Type 0 where
  stored : ℕ → List ℕ → Stored
  string_too_long panics : Stored

abbrev pub max_length : ℕ
max_length = 1 + 1 + 255

module _ (parse_ip : Str → Option IpAddr) where
  unfoldable pub write_type_and_address : Str → List ℕ → ℕ → ℕ → ℕ → Stored
  write_type_and_address host dest ipv4_type domain_type ipv6_type =
      let bytes = as_bytes host in
      elim (parse_ip host) [
        | some (IpAddr.v4 ip) ↦
            if ltb (length dest) 5
            then Stored.panics
            else Stored.stored 5 (write 0 (ipv4_type ∷ octets ip) dest)
        | some (IpAddr.v6 ip) ↦
            if ltb (length dest) 17
            then Stored.panics
            else Stored.stored 17 (write 0 (ipv6_type ∷ ip) dest)
        | none ↦
            if ltb 255 (length bytes)
            then (if ltb (length dest) 1 then Stored.panics else Stored.string_too_long)
            else if ltb (length dest) (2 + length bytes)
            then Stored.panics
            else Stored.stored (2 + length bytes)
                (write 2 bytes (write 1 (length bytes ∷ []) (write 0 (domain_type ∷ []) dest)))
      ]

  -- The port behind what was written, when there is room.
  unfoldable pub port_behind : ℕ → Stored → Stored
  port_behind port (Stored.stored n dest) =
      if ltb (length dest) (n + 2)
      then Stored.string_too_long
      else Stored.stored (n + 2) (write n (be16 port) dest)
  port_behind port r = r

  unfoldable pub write_socks_port_last : Str → ℕ → List ℕ → Stored
  unfolding write_type_and_address port_behind
  write_socks_port_last host port dest = port_behind port (write_type_and_address host dest 1 3 4)

  -- Behind the two bytes of the port.
  unfoldable pub behind : List ℕ → Stored → Stored
  behind front (Stored.stored n dest) = Stored.stored (n + length front) (front ++ dest)
  behind front r = r

  unfoldable pub write_socks_port_first : Str → ℕ → List ℕ → Stored
  unfolding write_type_and_address behind
  write_socks_port_first host port dest =
      if ltb (length dest) 2
      then Stored.string_too_long
      else behind (be16 port) (write_type_and_address host (drop 2 dest) 1 3 4)

-- ===== src/Trojan.antt =====
-- crates/clash-proxynet/src/trojan.rs, and sha224_hex_lower of crypto.rs: the request of a Trojan
-- client. `sha224` is the digest of the crate sha2, `parse_ip` the parser of IpAddr.
mod Request
mod Tests
use rust_clash.Common.{
  ℕ, ◌+◌, ◌/◌, ◌%◌, Option, List, [], ◌∷◌, ◌++◌, ltb, leb, if◌then◌else◌, length, take, drop, write,
  be16,
}
use rust_clash.Text.{Str}
use rust_clash.Utf8.{as_bytes}
use rust_clash.Net.{IpAddr}
use rust_clash.Address.{Stored, write_type_and_address}

abbrev pub sha224_hex_size : ℕ
sha224_hex_size = 56

-- The entry of the table of hexadecimal digits.
abbrev pub hex_digit : ℕ → ℕ
hex_digit n = if ltb n 10 then 48 + n else 87 + n

abbrev pub hex_lower : List ℕ → List ℕ
hex_lower [] = []
hex_lower (b ∷ digest) = hex_digit (b / 16) ∷ hex_digit (b % 16) ∷ hex_lower digest

module _ (sha224 : List ℕ → List ℕ) (parse_ip : Str → Option IpAddr) where
  abbrev pub sha224_hex_lower : List ℕ → List ℕ
  sha224_hex_lower bytes = hex_lower (sha224 bytes)

  -- Behind the address, of which `n` bytes were stored behind `front`.
  unfoldable pub finish_request : ℕ → List ℕ → Stored → Stored
  finish_request port front (Stored.stored n dest) =
      let offset = length front + n in
      let buffer = front ++ dest in
      if ltb (length buffer) (offset + 4)
      then Stored.panics
      else Stored.stored (offset + 4) (
          write (offset + 3) (10 ∷ [])
            (write (offset + 2) (13 ∷ []) (write offset (be16 port) buffer)))
  finish_request port front r = r

  unfoldable pub build_request : List ℕ → Str → Str → ℕ → Stored
  unfolding finish_request write_type_and_address
  build_request buffer password host port =
      let hashed = write 0 (sha224_hex_lower (as_bytes password)) buffer in
      let started = write 58 (1 ∷ []) (write 57 (10 ∷ []) (write 56 (13 ∷ []) hashed)) in
      if ltb (length buffer) 59
      then Stored.panics
      else finish_request port (take 59 started)
          (write_type_and_address parse_ip host (drop 59 started) 1 3 4)

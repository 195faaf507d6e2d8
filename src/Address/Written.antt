-- ===== src/Address/Written.antt =====
-- crates/clash-proxynet/src/address.rs: the other end reads the destination that was written.
use rust_clash.Common.{
  ℕ, ◌+◌, ◌-◌, ◌^◌, ◌<◌, ◌≤◌, ◌≡◌, ◌⊎◌, inl, inr, refl, ◌∙◌, ap, false, Option, none, some, List,
  [], ◌∷◌, ◌++◌, arith, ltb, ltb→lt, ◌==◌, if◌then◌else◌, length, length-append, length-replicate,
  take, drop, take-append_left, drop-append_left, write, write-next, replicate, be16, from_be16,
  from_be16-be16, Bool-cases,
}
use rust_clash.Text.{Str}
use rust_clash.Utf8.{as_bytes}
use rust_clash.Net.{IpAddr, octets}
use rust_clash.Address.{Stored, write_type_and_address, port_behind, write_socks_port_last}

-- What the other end reads: octets of an address, or a name, and the port, and nothing behind it.
pub data Target : Type 0 where
  at_octets : List ℕ → Target
  at_name : List ℕ → Target

abbrev pub with_port : Target → List ℕ → Option (Target × ℕ)
with_port target (hi ∷ lo ∷ []) = some (target, from_be16 hi lo)
with_port target bytes = none

abbrev pub read_name : List ℕ → Option (Target × ℕ)
read_name [] = none
read_name (n ∷ bytes) = with_port (Target.at_name (take n bytes)) (drop n bytes)

abbrev pub read_destination : List ℕ → Option (Target × ℕ)
read_destination [] = none
read_destination (t ∷ bytes) =
    if t == 1
    then with_port (Target.at_octets (take 4 bytes)) (drop 4 bytes)
    else if t == 3
    then read_name bytes
    else if t == 4
    then with_port (Target.at_octets (take 16 bytes)) (drop 16 bytes)
    else none

abbrev pub target_of : Option IpAddr → Str → Target
target_of (some (IpAddr.v4 ip)) host = Target.at_octets (octets ip)
target_of (some (IpAddr.v6 ip)) host = Target.at_octets ip
target_of none host = Target.at_name (as_bytes host)

abbrev buffer : List ℕ
buffer = replicate 259 0

-- A destination of which all bytes were stored.
abbrev pub IsRead : Option IpAddr → Str → ℕ → Stored → Type 0
IsRead ip host port r =
    (n : ℕ) × (dest : List ℕ) × (r ≡ Stored.stored n dest)
    × (n ≤ 259)
    × (read_destination (take n dest) ≡ some (target_of ip host, port))

with_port-be16 :
    (target : Target) (port : ℕ)
    → port < 2 ^ 16
    → with_port target (be16 port) ≡ some (target, port)
with_port-be16 target port h = ap (λ p. some (target, p)) (from_be16-be16 port h)

module _ (parse_ip : Str → Option IpAddr) where
  -- The port behind `part` at the front of the buffer.
  port_next :
      (ip : Option IpAddr) (host : Str) (port n : ℕ) (part : List ℕ)
      → n ≡ length part
      → length part ≤ 257
      → read_destination (part ++ be16 port) ≡ some (target_of ip host, port)
      → IsRead ip host port
          (port_behind parse_ip port (Stored.stored n (part ++ replicate (259 - length part) 0)))
  unfolding port_behind
  port_next ip host port n part e h read =
      let rest = 259 - length part in
      let zeros = length-replicate {A = ℕ} rest 0 in
      let size = length-append part (replicate rest 0) in
      let room : ltb (length (part ++ replicate rest 0)) (n + 2) ≡ false =
        ground (arith, size, zeros, e, h) in
      let whole = write-next part (be16 port) n rest e in
      let dest = (part ++ be16 port) ++ replicate (rest - 2) 0 in
      let front : take (n + 2) dest ≡ part ++ be16 port =
        take-append_left (part ++ be16 port) (replicate (rest - 2) 0) (n + 2)
          (omega (arith, e, length-append part (be16 port))) in
      (n + 2, dest, rw (room, whole) refl, omega (arith, e, h), ap read_destination front ∙ read)

  -- Too long, or `part` at the front of a zeroed buffer, which the other end reads.
  abbrev pub IsStored : Option IpAddr → Str → ℕ → Stored → Type 0
  IsStored ip host k r =
      ((ip ≡ none) × (255 < length (as_bytes host)) × (r ≡ Stored.string_too_long))
      ⊎ ((part : List ℕ) × (length part ≤ 257)
          × (r ≡ Stored.stored (length part) (part ++ replicate (k - length part) 0))
          × ((port : ℕ)
              → port < 2 ^ 16
              → read_destination (part ++ be16 port) ≡ some (target_of ip host, port)))

  by_ip :
      (host : Str) (k : ℕ) (ip : Option IpAddr)
      → 257 ≤ k
      → parse_ip host ≡ ip
      → ((six : List ℕ) → parse_ip host ≡ some (IpAddr.v6 six) → length six ≡ 16)
      → IsStored ip host k (write_type_and_address parse_ip host (replicate k 0) 1 3 4)
  unfolding write_type_and_address
  by_ip host k (some (IpAddr.v4 ip)) room e six =
      let part : List ℕ = 1 ∷ octets ip in
      let fits : ltb (length (replicate {A = ℕ} k 0)) 5 ≡ false =
        ground (arith, length-replicate {A = ℕ} k 0, room) in
      let stored : write_type_and_address parse_ip host (replicate k 0) 1 3 4
          ≡ Stored.stored 5 (part ++ replicate (k - length part) 0) =
        rw (write_type_and_address, e, fits) (ap (Stored.stored 5) (write-next [] part 0 k refl)) in
      inr
        (part, omega arith, stored, λ port p. with_port-be16 (Target.at_octets (octets ip)) port p)
  by_ip host k (some (IpAddr.v6 ip)) room e six =
      let part : List ℕ = 4 ∷ ip in
      let sixteen = six ip e in
      let size : 17 ≡ length part = omega (arith, sixteen) in
      let fits : ltb (length (replicate {A = ℕ} k 0)) 17 ≡ false =
        ground (arith, length-replicate {A = ℕ} k 0, room) in
      let stored : write_type_and_address parse_ip host (replicate k 0) 1 3 4
          ≡ Stored.stored (length part) (part ++ replicate (k - length part) 0) =
        rw (write_type_and_address, e, fits)
          (ap (Stored.stored 17) (write-next [] part 0 k refl)
            ∙ ap (λ n. Stored.stored n (part ++ replicate (k - length part) 0)) size) in
      inr (
        part,
        omega (arith, sixteen),
        stored,
        λ port p.
            rw
              (
                take-append_left ip (be16 port) 16 (omega (arith, sixteen)),
                drop-append_left ip (be16 port) 16 (omega (arith, sixteen)),
              )
              (with_port-be16 (Target.at_octets ip) port p),
      )
  by_ip host k none room e six =
      let bytes = as_bytes host in
      let zeros = length-replicate {A = ℕ} k 0 in
      elim (Bool-cases (ltb 255 (length bytes))) [
        | inl t ↦
            let one : ltb (length (replicate {A = ℕ} k 0)) 1 ≡ false =
              ground (arith, zeros, room) in
            inl (refl, ltb→lt 255 (length bytes) t, rw (write_type_and_address, e, t, one) refl)
        | inr f ↦
            let part : List ℕ = 3 ∷ length bytes ∷ bytes in
            let fits : ltb (length (replicate {A = ℕ} k 0)) (2 + length bytes) ≡ false =
              ground (arith, f, zeros, room) in
            let stored : write_type_and_address parse_ip host (replicate k 0) 1 3 4
                ≡ Stored.stored (length part) (part ++ replicate (k - length part) 0) =
              rw (write_type_and_address, e, f, fits)
                (ap (Stored.stored (2 + length bytes)) (
                    ap (λ b. write 2 bytes (write 1 (length bytes ∷ []) b))
                      (write-next [] (3 ∷ []) 0 k refl)
                    ∙ ap (write 2 bytes) (write-next (3 ∷ []) (length bytes ∷ []) 1 (k - 1) refl)
                    ∙ write-next (3 ∷ length bytes ∷ []) bytes 2 (k - 1 - 1) refl
                    ∙ ap (λ n. part ++ replicate n 0) (omega arith))
                  ∙ ap (λ n. Stored.stored n (part ++ replicate (k - length part) 0))
                      (omega arith)) in
            inr (
              part,
              ground (arith, f),
              stored,
              λ port p.
                  rw
                    (
                      take-append_left bytes (be16 port) (length bytes) refl,
                      drop-append_left bytes (be16 port) (length bytes) refl,
                    )
                    (with_port-be16 (Target.at_name bytes) port p),
            )
      ]

  pub write_type_and_address_lem :
      (host : Str) (k : ℕ)
      → 257 ≤ k
      → ((six : List ℕ) → parse_ip host ≡ some (IpAddr.v6 six) → length six ≡ 16)
      → IsStored (parse_ip host) host k (write_type_and_address parse_ip host (replicate k 0) 1 3 4)
  write_type_and_address_lem host k room six = by_ip host k (parse_ip host) room refl six

  -- A destination and a port of 16 bits, written into a buffer of 259 bytes, when the parser gives
  -- IPv6 addresses of sixteen octets: either the host is no address and has more than 255 bytes, and
  -- is refused as too long; or so many bytes are written, and the other end reads of them the octets
  -- of the address, or the name, and the port.
  pub read_destination-write_socks_port_last :
      (host : Str) (port : ℕ)
      → ((six : List ℕ) → parse_ip host ≡ some (IpAddr.v6 six) → length six ≡ 16)
      → port < 2 ^ 16
      → ((parse_ip host ≡ none)
          × (255 < length (as_bytes host))
          × (write_socks_port_last parse_ip host port (replicate 259 0) ≡ Stored.string_too_long))
        ⊎ ((n : ℕ) × (dest : List ℕ) × (write_socks_port_last parse_ip host port (replicate 259 0)
              ≡ Stored.stored n dest)
            × (n ≤ 259)
            × (read_destination (take n dest) ≡ some (target_of (parse_ip host) host, port)))
  unfolding write_socks_port_last port_behind
  read_destination-write_socks_port_last host port six p =
      elim (write_type_and_address_lem host 259 (omega arith) six) [
        | inl (no_ip, long, e) ↦ inl (no_ip, long, ap (port_behind parse_ip port) e)
        | inr (part, fits, e, read) ↦
            let (n, dest, stored, inside, back) =
              port_next (parse_ip host) host port (length part) part refl fits (read port p) in
            inr (n, dest, ap (port_behind parse_ip port) e ∙ stored, inside, back)
      ]

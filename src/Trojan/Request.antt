-- ===== src/Trojan/Request.antt =====
-- crates/clash-proxynet/src/trojan.rs: the request, part by part, and its destination read back.
use rust_clash.Common.{
  ℕ, ◌+◌, ◌-◌, ◌*◌, ◌^◌, ◌<◌, ◌≤◌, ◌≡◌, ◌⊎◌, inl, inr, refl, sym, ◌∙◌, ap, false, Option, none,
  some, List, [], ◌∷◌, ◌++◌, arith, ltb, length, length-append, length-replicate, take, drop,
  take-append_left, drop-append_left, write, write-next, replicate, be16,
}
use mathlib.Core.List.{append_assoc}
use rust_clash.Text.{Str}
use rust_clash.Utf8.{as_bytes}
use rust_clash.Net.{IpAddr}
use rust_clash.Address.{Stored, write_type_and_address}
use rust_clash.Address.Written.{read_destination, target_of, write_type_and_address_lem}
use rust_clash.Trojan.{hex_lower, finish_request, build_request}

length-hex_lower : (digest : List ℕ) → length (hex_lower digest) ≡ 2 * length digest
length-hex_lower [] = refl
length-hex_lower (b ∷ digest) = omega (arith, length-hex_lower digest)

length-whole :
    (front part : List ℕ) (port : ℕ)
    → length ((((front ++ part) ++ be16 port) ++ (13 ∷ [])) ++ (10 ∷ []))
      ≡ length front + length part + 4
length-whole front part port =
    let done = front ++ part in
    omega (
      arith,
      length-append front part,
      length-append done (be16 port),
      length-append (done ++ be16 port) (13 ∷ []),
      length-append ((done ++ be16 port) ++ (13 ∷ [])) (10 ∷ []),
    )

-- The same bytes, nested to the right.
regrouped :
    (hash part : List ℕ) (port : ℕ)
    → (((((((hash ++ (13 ∷ [])) ++ (10 ∷ [])) ++ (1 ∷ [])) ++ part) ++ be16 port) ++ (13 ∷ []))
        ++ (10 ∷ []))
      ≡ hash ++ (13 ∷ 10 ∷ 1 ∷ ((part ++ be16 port) ++ (13 ∷ 10 ∷ [])))
regrouped hash part port =
    let a = hash ++ (13 ∷ []) in
    let b = a ++ (10 ∷ []) in
    let c = b ++ (1 ∷ []) in
    let tail = 13 ∷ 10 ∷ [] in
    append_assoc ((c ++ part) ++ be16 port) (13 ∷ []) (10 ∷ [])
    ∙ ap (λ x. x ++ tail) (append_assoc c part (be16 port))
    ∙ append_assoc c (part ++ be16 port) tail
    ∙ append_assoc b (1 ∷ []) ((part ++ be16 port) ++ tail)
    ∙ append_assoc a (10 ∷ []) (1 ∷ ((part ++ be16 port) ++ tail))
    ∙ append_assoc hash (13 ∷ []) (10 ∷ 1 ∷ ((part ++ be16 port) ++ tail))

module _ (sha224 : List ℕ → List ℕ) (parse_ip : Str → Option IpAddr) where
  -- Behind a front and an address in a zeroed buffer with room for more.
  finish_request_lem :
      (port k : ℕ) (front part : List ℕ)
      → 4 ≤ k
      → finish_request sha224 parse_ip port front
          (Stored.stored (length part) (part ++ replicate k 0))
        ≡ Stored.stored
            (length front + length part + 4)
            (((((front ++ part) ++ be16 port) ++ (13 ∷ [])) ++ (10 ∷ [])) ++ replicate (k - 4) 0)
  unfolding finish_request
  finish_request_lem port k front part room =
      let offset = length front + length part in
      let done = front ++ part in
      let size : offset ≡ length done = omega (arith, length-append front part) in
      let zeros = length-replicate {A = ℕ} k 0 in
      let fits : ltb (length (front ++ (part ++ replicate k 0))) (offset + 4) ≡ false = ground (
        arith,
        zeros,
        room,
        length-append front (part ++ replicate k 0),
        length-append part (replicate k 0),
      ) in
      let written : write (offset + 3) (10 ∷ []) (
            write (offset + 2) (13 ∷ [])
              (write offset (be16 port) (front ++ (part ++ replicate k 0))))
          ≡ (((done ++ be16 port) ++ (13 ∷ [])) ++ (10 ∷ [])) ++ replicate (k - 2 - 1 - 1) 0 =
        ap
          (λ b.
            write (offset + 3) (10 ∷ [])
              (write (offset + 2) (13 ∷ []) (write offset (be16 port) b)))
          (sym (append_assoc front part (replicate k 0)))
        ∙ ap (λ b. write (offset + 3) (10 ∷ []) (write (offset + 2) (13 ∷ []) b))
            (write-next done (be16 port) offset k size)
        ∙ ap (write (offset + 3) (10 ∷ [])) (
            write-next (done ++ be16 port) (13 ∷ []) (offset + 2) (k - 2)
              (omega (arith, size, length-append done (be16 port))))
        ∙ write-next ((done ++ be16 port) ++ (13 ∷ [])) (10 ∷ []) (offset + 3) (k - 2 - 1) (
            omega (
              arith,
              size,
              length-append done (be16 port),
              length-append (done ++ be16 port) (13 ∷ []),
            )) in
      let rest : k - 2 - 1 - 1 ≡ k - 4 = omega arith in
      rw fits (
        ap (Stored.stored (offset + 4)) (
          written
          ∙ ap (λ j. (((done ++ be16 port) ++ (13 ∷ [])) ++ (10 ∷ [])) ++ replicate j 0) rest))

  refused :
      (port : ℕ) (front : List ℕ)
      → finish_request sha224 parse_ip port front Stored.string_too_long ≡ Stored.string_too_long
  unfolding finish_request
  refused port front = refl

  -- A request in a buffer of 320 bytes, when the digest has 28 bytes, the parser gives IPv6 addresses
  -- of sixteen octets, and the port has 16 bits: either the host is no address and has more than 255
  -- bytes, and is refused as too long; or the bytes stored are the digest in hexadecimal digits, a
  -- line's end, the command 1, a destination that the other end reads as the octets of the address,
  -- or the name, and the port, and a line's end.
  pub read_destination-build_request :
      (password host : Str) (port : ℕ)
      → length (sha224 (as_bytes password)) ≡ 28
      → ((six : List ℕ) → parse_ip host ≡ some (IpAddr.v6 six) → length six ≡ 16)
      → port < 2 ^ 16
      → ((parse_ip host ≡ none)
          × (255 < length (as_bytes host))
          × (build_request sha224 parse_ip (replicate 320 0) password host port
              ≡ Stored.string_too_long))
        ⊎ ((destination dest : List ℕ) × (n : ℕ) × (build_request sha224 parse_ip
                (replicate 320 0)
                password
                host
                port
              ≡ Stored.stored n dest)
            × (take n dest
                ≡ hex_lower (sha224 (as_bytes password))
                  ++ (13 ∷ 10 ∷ 1 ∷ (destination ++ (13 ∷ 10 ∷ []))))
            × (read_destination destination ≡ some (target_of (parse_ip host) host, port)))
  unfolding build_request
  read_destination-build_request password host port d six p =
      let hash = hex_lower (sha224 (as_bytes password)) in
      let size : length hash ≡ 56 =
        omega (arith, d, length-hex_lower (sha224 (as_bytes password))) in
      let front = ((hash ++ (13 ∷ [])) ++ (10 ∷ [])) ++ (1 ∷ []) in
      let one = length-append hash (13 ∷ []) in
      let two = length-append (hash ++ (13 ∷ [])) (10 ∷ []) in
      let long : length front ≡ 59 =
        omega (arith, size, one, two, length-append ((hash ++ (13 ∷ [])) ++ (10 ∷ [])) (1 ∷ [])) in
      let left : 320 - length hash - 1 - 1 - 1 ≡ 261 = omega (arith, size) in
      let started : write 58 (1 ∷ [])
            (write 57 (10 ∷ []) (write 56 (13 ∷ []) (write 0 hash (replicate 320 0))))
          ≡ front ++ replicate 261 0 =
        ap (λ b. write 58 (1 ∷ []) (write 57 (10 ∷ []) (write 56 (13 ∷ []) b)))
          (write-next [] hash 0 320 refl)
        ∙ ap (λ b. write 58 (1 ∷ []) (write 57 (10 ∷ []) b))
            (write-next hash (13 ∷ []) 56 (320 - length hash) (omega (arith, size)))
        ∙ ap (write 58 (1 ∷ [])) (
            write-next (hash ++ (13 ∷ [])) (10 ∷ []) 57 (320 - length hash - 1)
              (omega (arith, size, one)))
        ∙ write-next ((hash ++ (13 ∷ [])) ++ (10 ∷ [])) (1 ∷ []) 58 (320 - length hash - 1 - 1)
            (omega (arith, size, one, two))
        ∙ ap (λ j. front ++ replicate j 0) left in
      let before : take 59 (front ++ replicate 261 0) ≡ front =
        take-append_left front (replicate 261 0) 59 (omega (arith, long)) in
      let behind : drop 59 (front ++ replicate 261 0) ≡ replicate 261 0 =
        drop-append_left front (replicate 261 0) 59 (omega (arith, long)) in
      let address = write_type_and_address parse_ip host (replicate 261 0) 1 3 4 in
      let built : build_request sha224 parse_ip (replicate 320 0) password host port
          ≡ finish_request sha224 parse_ip port front address =
        ap
          (λ b.
            finish_request sha224 parse_ip port (take 59 b)
              (write_type_and_address parse_ip host (drop 59 b) 1 3 4))
          started
        ∙ ap
            (λ b.
              finish_request sha224 parse_ip port b
                (write_type_and_address parse_ip host (drop 59 (front ++ replicate 261 0)) 1 3 4))
            before
        ∙ ap
            (λ b.
              finish_request sha224 parse_ip port front
                (write_type_and_address parse_ip host b 1 3 4))
            behind in
      elim (write_type_and_address_lem parse_ip host 261 (omega arith) six) [
        | inl (no_ip, too_long, e) ↦ inl (
          no_ip,
          too_long,
          built ∙ ap (finish_request sha224 parse_ip port front) e ∙ refused port front,
        )
        | inr (part, fits, e, read) ↦
            let k = 261 - length part in
            let whole = (((front ++ part) ++ be16 port) ++ (13 ∷ [])) ++ (10 ∷ []) in
            let sizes : length whole ≡ length front + length part + 4 =
              length-whole front part port in
            inr (
              part ++ be16 port,
              whole ++ replicate (k - 4) 0,
              length front + length part + 4,
              built
                  ∙ ap (finish_request sha224 parse_ip port front) e
                  ∙ finish_request_lem port k front part (omega (arith, fits)),
              take-append_left whole (replicate (k - 4) 0) (length front + length part + 4)
                    (sym sizes)
                  ∙ regrouped hash part port,
              read port p,
            )
      ]

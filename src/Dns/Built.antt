-- ===== src/Dns/Built.antt =====
-- crates/clash-core/src/dns.rs: build_named_a_response and build_empty_dns with every copy into the
-- buffer checked, so that `none` is a panic. They answer what those of Dns do.
use rust_clash.Common.{
  ℕ, ◌+◌, ◌≡◌, refl, Option, some, List, arith, length, take, replicate, write, be16, be32,
  length-replicate, ◌>>=◌, copy_in, copy_in-some,
}
use rust_clash.Net.{Ipv4Addr, octets}
use rust_clash.Text.{Str}
use rust_clash.Dns.{encode_dns_name, build_named_a_response, build_empty_dns}

module _ (idna : Str → Option Str) where
  unfoldable pub indexed_build_named_a_response : ℕ → Str → Ipv4Addr → Option (List ℕ)
  indexed_build_named_a_response id qname ip = do
    let name = encode_dns_name idna qname
    let o = 12 + length name
    b0 ← copy_in 0 (be16 id) (replicate (12 + length name + 4 + 16) 0)
    b1 ← copy_in 2 (be16 0x8580) b0
    b2 ← copy_in 4 (be16 1) b1
    b3 ← copy_in 6 (be16 1) b2
    b4 ← copy_in 12 name b3
    b5 ← copy_in o (be16 1) b4
    b6 ← copy_in (o + 2) (be16 1) b5
    b7 ← copy_in (o + 2 + 2) (be16 0xc00c) b6
    b8 ← copy_in (o + 2 + 2 + 2) (be16 1) b7
    b9 ← copy_in (o + 2 + 2 + 2 + 2) (be16 1) b8
    b10 ← copy_in (o + 2 + 2 + 2 + 2 + 2) (be32 300) b9
    b11 ← copy_in (o + 2 + 2 + 2 + 2 + 2 + 4) (be16 4) b10
    b12 ← copy_in (o + 2 + 2 + 2 + 2 + 2 + 4 + 2) (octets ip) b11
    some (take (o + 2 + 2 + 2 + 2 + 2 + 4 + 2 + 4) b12)

  unfoldable pub indexed_build_empty_dns : ℕ → Str → ℕ → Option (List ℕ)
  indexed_build_empty_dns id qname qtype = do
    let name = encode_dns_name idna qname
    let o = 12 + length name
    b0 ← copy_in 0 (be16 id) (replicate (12 + length name + 4) 0)
    b1 ← copy_in 2 (be16 0x8180) b0
    b2 ← copy_in 4 (be16 1) b1
    b3 ← copy_in 12 name b2
    b4 ← copy_in o (be16 qtype) b3
    b5 ← copy_in (o + 2) (be16 1) b4
    some (b5)

  pub indexed_build_named_a_response-some :
      (id : ℕ) (qname : Str) (ip : Ipv4Addr)
      → indexed_build_named_a_response id qname ip ≡ some (build_named_a_response idna id qname ip)
  unfolding indexed_build_named_a_response build_named_a_response
  indexed_build_named_a_response-some id qname ip =
      let name = encode_dns_name idna qname in
      let o = 12 + length name in
      let n = 12 + length name + 4 + 16 in
      let zero_byte : ℕ = 0 in
      let blank : List ℕ = replicate n 0 in
      let (d0, l0) =
        copy_in-some n 0 (be16 id) blank (length-replicate n zero_byte) (omega arith) in
      let b0 = write 0 (be16 id) blank in
      let (d1, l1) = copy_in-some n 2 (be16 0x8580) b0 l0 (omega arith) in
      let b1 = write 2 (be16 0x8580) b0 in
      let (d2, l2) = copy_in-some n 4 (be16 1) b1 l1 (omega arith) in
      let b2 = write 4 (be16 1) b1 in
      let (d3, l3) = copy_in-some n 6 (be16 1) b2 l2 (omega arith) in
      let b3 = write 6 (be16 1) b2 in
      let (d4, l4) = copy_in-some n 12 name b3 l3 (omega arith) in
      let b4 = write 12 name b3 in
      let (d5, l5) = copy_in-some n o (be16 1) b4 l4 (omega arith) in
      let b5 = write o (be16 1) b4 in
      let (d6, l6) = copy_in-some n (o + 2) (be16 1) b5 l5 (omega arith) in
      let b6 = write (o + 2) (be16 1) b5 in
      let (d7, l7) = copy_in-some n (o + 2 + 2) (be16 0xc00c) b6 l6 (omega arith) in
      let b7 = write (o + 2 + 2) (be16 0xc00c) b6 in
      let (d8, l8) = copy_in-some n (o + 2 + 2 + 2) (be16 1) b7 l7 (omega arith) in
      let b8 = write (o + 2 + 2 + 2) (be16 1) b7 in
      let (d9, l9) = copy_in-some n (o + 2 + 2 + 2 + 2) (be16 1) b8 l8 (omega arith) in
      let b9 = write (o + 2 + 2 + 2 + 2) (be16 1) b8 in
      let (d10, l10) = copy_in-some n (o + 2 + 2 + 2 + 2 + 2) (be32 300) b9 l9 (omega arith) in
      let b10 = write (o + 2 + 2 + 2 + 2 + 2) (be32 300) b9 in
      let (d11, l11) = copy_in-some n (o + 2 + 2 + 2 + 2 + 2 + 4) (be16 4) b10 l10 (omega arith) in
      let b11 = write (o + 2 + 2 + 2 + 2 + 2 + 4) (be16 4) b10 in
      let (d12, l12) =
        copy_in-some n (o + 2 + 2 + 2 + 2 + 2 + 4 + 2) (octets ip) b11 l11 (omega arith) in
      let b12 = write (o + 2 + 2 + 2 + 2 + 2 + 4 + 2) (octets ip) b11 in
      rw (indexed_build_named_a_response, d0, d1, d2, d3, d4, d5, d6, d7, d8, d9, d10, d11, d12)
        refl

  pub indexed_build_empty_dns-some :
      (id : ℕ) (qname : Str) (qtype : ℕ)
      → indexed_build_empty_dns id qname qtype ≡ some (build_empty_dns idna id qname qtype)
  unfolding indexed_build_empty_dns build_empty_dns
  indexed_build_empty_dns-some id qname qtype =
      let name = encode_dns_name idna qname in
      let o = 12 + length name in
      let n = 12 + length name + 4 in
      let zero_byte : ℕ = 0 in
      let blank : List ℕ = replicate n 0 in
      let (d0, l0) =
        copy_in-some n 0 (be16 id) blank (length-replicate n zero_byte) (omega arith) in
      let b0 = write 0 (be16 id) blank in
      let (d1, l1) = copy_in-some n 2 (be16 0x8180) b0 l0 (omega arith) in
      let b1 = write 2 (be16 0x8180) b0 in
      let (d2, l2) = copy_in-some n 4 (be16 1) b1 l1 (omega arith) in
      let b2 = write 4 (be16 1) b1 in
      let (d3, l3) = copy_in-some n 12 name b2 l2 (omega arith) in
      let b3 = write 12 name b2 in
      let (d4, l4) = copy_in-some n o (be16 qtype) b3 l3 (omega arith) in
      let b4 = write o (be16 qtype) b3 in
      let (d5, l5) = copy_in-some n (o + 2) (be16 1) b4 l4 (omega arith) in
      let b5 = write (o + 2) (be16 1) b4 in
      rw (indexed_build_empty_dns, d0, d1, d2, d3, d4, d5) refl

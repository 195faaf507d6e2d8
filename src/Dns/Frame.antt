-- ===== src/Dns/Frame.antt =====
-- The layout of the messages that crates/clash-core/src/dns.rs builds in a zeroed buffer.
use rust_clash.Common.{
  Option, ℕ, suc, ◌+◌, ◌-◌, ◌≡◌, ◌∙◌, refl, List, [], ◌∷◌, ◌++◌, arith, length, length-append,
  take_all, replicate, be16, be32, write_parts, concat, write_parts-next,
}
use mathlib.Core.List.{append-nil}
use rust_clash.Net.{Ipv4Addr, octets}
use rust_clash.Text.{Str}
use rust_clash.Dns.{encode_dns_name, build_named_a_response, build_empty_dns}

-- The header of an answer, and the answer record for an address, its name a pointer to offset 12.
abbrev pub header : ℕ → ℕ → ℕ → List ℕ
header id flags answers =
    be16 id ++ (be16 flags ++ (be16 1 ++ (be16 answers ++ (0 ∷ 0 ∷ 0 ∷ 0 ∷ []))))

abbrev pub answer : Ipv4Addr → List ℕ
answer ip = be16 0xc00c ++ (be16 1 ++ (be16 1 ++ (be32 300 ++ (be16 4 ++ octets ip))))

-- The buffer that the messages start from, with twelve bytes for the header.
twelve : (k : ℕ) → 12 + k ≡ suc (suc (suc (suc (suc (suc (suc (suc (suc (suc (suc (suc k)))))))))))
twelve k = omega arith

-- Parts that fill a zeroed buffer behind a header.
fill :
    (head : List ℕ) (parts : List (List ℕ)) (i k : ℕ)
    → i ≡ length head
    → k ≡ length (concat parts)
    → write_parts i parts (head ++ replicate k 0) ≡ head ++ concat parts
fill head parts i k e f =
    let none_left : k - length (concat parts) ≡ 0 = omega arith in
    write_parts-next parts head i k e ∙ rw none_left (append-nil (head ++ concat parts))

module _ (idna : Str → Option Str) (id : ℕ) (qname : Str) where
  pub build_empty_dns_layout :
      (qtype : ℕ)
      → build_empty_dns idna id qname qtype
        ≡ header id 0x8180 0 ++ (encode_dns_name idna qname ++ (be16 qtype ++ be16 1))
  unfolding build_empty_dns
  build_empty_dns_layout qtype =
      let name = encode_dns_name idna qname in
      let k = length name + 4 in
      let e : 12 + length name + 4 ≡ 12 + k = omega arith in
      rw (e, twelve k)
        (fill (header id 0x8180 0) (name ∷ be16 qtype ∷ be16 1 ∷ []) 12 k refl
          (omega (arith, length-append name (be16 qtype ++ be16 1))))

  pub build_named_a_response_layout :
      (ip : Ipv4Addr)
      → build_named_a_response idna id qname ip
        ≡ header id 0x8580 1 ++ (encode_dns_name idna qname ++ (be16 1 ++ (be16 1 ++ answer ip)))
  unfolding build_named_a_response
  build_named_a_response_layout ip =
      let name = encode_dns_name idna qname in
      let tail = be16 1 ++ (be16 1 ++ answer ip) in
      let k = length name + 20 in
      let e : 12 + length name + 4 + 16 ≡ 12 + k = omega arith in
      let whole =
        fill (header id 0x8580 1)
          (name
            ∷ be16 1
            ∷ be16 1
            ∷ be16 0xc00c
            ∷ be16 1
            ∷ be16 1
            ∷ be32 300
            ∷ be16 4
            ∷ octets ip
            ∷ [])
          12 k refl (omega (arith, length-append name tail)) in
      rw (e, twelve k, whole)
        (take_all (header id 0x8580 1 ++ (name ++ tail)) _ (omega (arith, length-append name tail)))

-- ===== src/Dns/Response.antt =====
-- The answers of crates/clash-core/src/dns.rs: `parse_a_answers` reads the addresses that the
-- builders write.
use Prim.Native.Nat.{bit_and}
use rust_clash.Common.{
  ℕ, ◌+◌, ◌≤◌, ◌<◌, ◌≡◌, ◌∙◌, refl, false, List, [], ◌∷◌, ◌++◌, Option, some, arith, ltb, ◌==◌,
  length, length-append, drop, be16, be32, length-of_drop, at-of_drop, at-of_drop_zero,
  drop-of_part, drop-of_drop,
}
use rust_clash.Net.{Ipv4Addr, IpAddr, octets}
use rust_clash.Text.{Str}
use rust_clash.Dns.{
  labels, encode_dns_name, read_dns_name, skip_questions, read_answers, parse_a_answers,
  build_named_a_response, build_empty_dns, flags, qd_count, an_count,
}
use rust_clash.Dns.Name.{IsName, dotted, read_dns_name-encode_dns_name, read_dns_name_pointer}
use rust_clash.Dns.Frame.{header, answer, build_named_a_response_layout, build_empty_dns_layout}

skip_one :
    (msg : List ℕ) (off o : ℕ) (s : Str)
    → read_dns_name msg off ≡ some (s, o)
    → o + 4 ≤ length msg
    → skip_questions 1 msg off ≡ some (o + 4)
unfolding skip_questions
skip_one msg off o s h le = rw (h, skip_questions) (ground arith)

-- The record of an address behind its name at `o`.
read_one :
    (msg : List ℕ) (off o : ℕ) (s : Str) (ip : Ipv4Addr) (ips : List IpAddr)
    → read_dns_name msg off ≡ some (s, o)
    → drop o msg ≡ be16 1 ++ (be16 1 ++ (be32 300 ++ (be16 4 ++ octets ip)))
    → read_answers 1 msg off ips ≡ some (ips ++ (IpAddr.v4 ip ∷ []))
unfolding read_answers
read_one msg off o s ip ips h d =
    rw (h, read_answers)
      (let t = be16 1 ++ (be16 1 ++ (be32 300 ++ (be16 4 ++ octets ip))) in
        rw
          (
            at-of_drop_zero o msg t d,
            at-of_drop o 1 msg t d,
            at-of_drop o 8 msg t d,
            at-of_drop o 9 msg t d,
            at-of_drop o 10 msg t d,
            at-of_drop o 11 msg t d,
            at-of_drop o 12 msg t d,
            at-of_drop o 13 msg t d,
          )
          (ground (arith, length-of_drop o msg 0 (drop 1 t) d)))

no_answers : (msg : List ℕ) (o : ℕ) → read_answers 0 msg o [] ≡ some []
unfolding read_answers
no_answers msg o = refl

-- A message with one question, behind whose name the offset is `o`.
parse_a_answers_lem :
    (msg : List ℕ) (n o : ℕ) (s : Str)
    → 12 ≤ length msg
    → (bit_and (flags msg) 0x8000 == 0) ≡ false
    → qd_count msg ≡ 1
    → an_count msg ≡ n
    → read_dns_name msg 12 ≡ some (s, o)
    → o + 4 ≤ length msg
    → parse_a_answers msg ≡ read_answers n msg (o + 4) []
unfolding parse_a_answers
parse_a_answers_lem msg n o s long response one count name le =
    let short : ltb (length msg) 12 ≡ false = ground arith in
    rw (short, response, one, skip_one msg 12 o s name le, count) refl

module _ (idna : Str → Option Str) (id : ℕ) (qname : Str) (v : IsName idna qname) where
  -- `parse_a_answers` reads exactly the address that `build_named_a_response` was given, for every
  -- name of at most 62 ASCII labels of at most 63 bytes.
  pub parse_a_answers-build_named_a_response :
      (ip : Ipv4Addr)
      → length (labels idna qname) < 63
      → parse_a_answers (build_named_a_response idna id qname ip) ≡ some (IpAddr.v4 ip ∷ [])
  parse_a_answers-build_named_a_response ip few =
      let name = encode_dns_name idna qname in
      let rest = be16 1 ++ (be16 1 ++ answer ip) in
      let msg = header id 0x8580 1 ++ (name ++ rest) in
      let after : drop (12 + length name) msg ≡ rest =
        drop-of_part 12 (length name) msg name rest refl refl in
      let record_at : drop (12 + length name + 4) msg ≡ answer ip =
        drop-of_drop (12 + length name) 4 msg rest after in
      let data_at : drop (12 + length name + 4 + 2) msg ≡ drop 2 (answer ip) =
        drop-of_drop (12 + length name + 4) 2 msg (answer ip) record_at in
      let question = read_dns_name-encode_dns_name idna qname msg 12 rest v refl in
      let pointer =
        read_dns_name_pointer idna qname msg (12 + length name + 4) rest (drop 2 (answer ip)) v few
          refl record_at in
      rw (build_named_a_response_layout idna id qname ip) (
        parse_a_answers_lem msg 1 (12 + length name) (dotted idna qname) (omega arith) refl refl
          refl question (omega (arith, length-append name rest))
        ∙ read_one msg (12 + length name + 4) (12 + length name + 4 + 2) (dotted idna qname) ip []
            pointer data_at)

  -- And none in the empty answer of `build_empty_dns`, which is an answer all the same.
  parse_a_answers-build_empty_dns :
      (qtype : ℕ) → parse_a_answers (build_empty_dns idna id qname qtype) ≡ some []
  parse_a_answers-build_empty_dns qtype =
      let name = encode_dns_name idna qname in
      let rest = be16 qtype ++ be16 1 in
      let msg = header id 0x8180 0 ++ (name ++ rest) in
      let question = read_dns_name-encode_dns_name idna qname msg 12 rest v refl in
      rw (build_empty_dns_layout idna id qname qtype) (
        parse_a_answers_lem msg 0 (12 + length name) (dotted idna qname) (omega arith) refl refl
          refl question (omega (arith, length-append name rest))
        ∙ no_answers msg (12 + length name + 4))

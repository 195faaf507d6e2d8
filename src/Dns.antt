-- ===== src/Dns.antt =====
-- crates/clash-core/src/dns.rs, lines 274 to 327 and 487 to 625: the DNS messages. A message is
-- the list of its bytes, a u16 field a number below 2 ^ 16. The crate `idna` is an argument where
-- `domain_to_ascii` is called. A byte outside of a message reads as 0; Dns/Indexed and Dns/Built
-- have the functions that the packet thread calls with their panics.
pub mod Name
pub mod Frame
pub mod Query
pub mod Response
pub mod Echo
pub mod Indexed
pub mod Built
mod Tests
use Prim.Native.Nat.{bit_and}
use rust_clash.Common.{
  ℕ, zero, suc, ◌+◌, ◌-◌, ◌*◌, ◌%◌, ◌^◌, Bool, true, false, not, ◌||◌, ◌&&◌, List, [], ◌∷◌, ◌++◌,
  Option, none, some, ltb, leb, ◌==◌, if◌then◌else◌, length, take, drop, replicate, at, slice,
  write, be16, be32, from_be16,
}
use rust_clash.Net.{Ipv4Addr, IpAddr, octets}
use rust_clash.Text.{Str, is_empty}
use rust_clash.Utf8.{as_bytes, from_utf8_lossy}
use rust_clash.Utils.{domain_to_ascii}

-- `split`, by one character.
unfoldable pub split : ℕ → Str → List Str
split sep [] = [] ∷ []
split sep (c ∷ s) = elim (split sep s) [
  | [] ↦ [] ∷ []
  | part ∷ parts ↦ if c == sep then [] ∷ part ∷ parts else (c ∷ part) ∷ parts
]

-- `filter(|s| !s.is_empty())`.
unfoldable pub drop_empty : List Str → List Str
drop_empty [] = []
drop_empty ([] ∷ parts) = drop_empty parts
drop_empty ((c ∷ part) ∷ parts) = (c ∷ part) ∷ drop_empty parts

-- `join`, by one character.
unfoldable pub join : ℕ → List Str → Str
join sep [] = []
join sep (part ∷ []) = part
join sep (part ∷ next ∷ parts) = part ++ (sep ∷ join sep (next ∷ parts))

-- The loop of `encode_dns_name` over the labels, and the closing 0; `b.len() as u8`.
unfoldable pub encode_labels : List Str → List ℕ
encode_labels [] = 0 ∷ []
encode_labels (l ∷ ls) = (length (as_bytes l) % 2 ^ 8) ∷ (as_bytes l ++ encode_labels ls)

module _ (idna : Str → Option Str) where
  -- The labels of a name.
  unfoldable pub labels : Str → List Str
  labels name = drop_empty (split b'.' (domain_to_ascii idna name))

  unfoldable pub encode_dns_name : Str → List ℕ
  encode_dns_name name = encode_labels (labels name)

-- The loop of `read_dns_name`: the rounds left, the offset, `jumped`, `end` and the labels so far.
-- The answer is the name and the new offset.
unfoldable pub read_labels : ℕ → List ℕ → ℕ → Bool → ℕ → List Str → Option (Str × ℕ)
read_labels zero msg off jumped end found = none
read_labels (suc n) msg off jumped end found =
    let len = at msg off in
    let ptr = bit_and len 0x3f * 2 ^ 8 + at msg (off + 1) in
    let stop = if jumped then end else off + 1 in
    let follow = read_labels n msg ptr true (if jumped then end else off + 2) found in
    let label = from_utf8_lossy (slice msg (off + 1) len) in
    let more = read_labels n msg (off + 1 + len) jumped end (found ++ (label ∷ [])) in
    if leb (length msg) off
    then none
    else if len == 0
    then some (join b'.' found, stop)
    else if bit_and len 0xc0 == 0xc0
    then if leb (length msg) (off + 1) then none else follow
    else if ltb (length msg) (off + 1 + len)
    then none
    else more

unfoldable pub read_dns_name : List ℕ → ℕ → Option (Str × ℕ)
read_dns_name msg off = read_labels 64 msg off false off []

-- The header of 12 bytes: the flags, and how many questions and answers follow.
abbrev pub flags : List ℕ → ℕ
flags msg = from_be16 (at msg 2) (at msg 3)

abbrev pub qd_count : List ℕ → ℕ
qd_count msg = from_be16 (at msg 4) (at msg 5)

abbrev pub an_count : List ℕ → ℕ
an_count msg = from_be16 (at msg 6) (at msg 7)

-- `(qclass == 1).then_some(..)`, after the name of the question.
unfoldable pub finish_query : List ℕ → Str × ℕ → Option (ℕ × Str × ℕ)
finish_query msg (qname, off) =
    if ltb (length msg) (off + 4) || is_empty qname
    then none
    else if from_be16 (at msg (off + 2)) (at msg (off + 3)) == 1
    then some (from_be16 (at msg 0) (at msg 1), qname, from_be16 (at msg off) (at msg (off + 1)))
    else none

unfoldable pub parse_dns_query : List ℕ → Option (ℕ × Str × ℕ)
parse_dns_query msg =
    if ltb (length msg) 12
    then none
    else if not (bit_and (flags msg) 0x8000 == 0)
    then none
    else if ltb (qd_count msg) 1
    then none
    else elim (read_dns_name msg 12) [ none ↦ none | some r ↦ finish_query msg r ]

-- The loop over the questions: the offset after them.
unfoldable pub skip_questions : ℕ → List ℕ → ℕ → Option ℕ
skip_questions zero msg off = some off
skip_questions (suc n) msg off = elim (read_dns_name msg off) [
  | none ↦ none
  | some (_, o) ↦ if ltb (length msg) (o + 4) then none else skip_questions n msg (o + 4)
]

-- The loop over the answers: the addresses found, behind those found before.
unfoldable pub read_answers : ℕ → List ℕ → ℕ → List IpAddr → Option (List IpAddr)
read_answers zero msg off ips = some ips
read_answers (suc n) msg off ips = elim (read_dns_name msg off) [
  | none ↦ none
  | some (_, o) ↦
      let ty = from_be16 (at msg o) (at msg (o + 1)) in
      let rdlen = from_be16 (at msg (o + 8)) (at msg (o + 9)) in
      let ip : Ipv4Addr = record {
        a = at msg (o + 10);
        b = at msg (o + 11);
        c = at msg (o + 12);
        d = at msg (o + 13);
      } in
      let found = if ty == 1 && rdlen == 4 then ips ++ (IpAddr.v4 ip ∷ []) else ips in
      let rest = read_answers n msg (o + 10 + rdlen) found in
      if ltb (length msg) (o + 10)
      then none
      else if ltb (length msg) (o + 10 + rdlen)
      then none
      else rest
]

unfoldable pub parse_a_answers : List ℕ → Option (List IpAddr)
parse_a_answers msg =
    if ltb (length msg) 12
    then none
    else if bit_and (flags msg) 0x8000 == 0
    then none
    else elim (skip_questions (qd_count msg) msg 12) [
      | none ↦ none
      | some off ↦ read_answers (an_count msg) msg off []
    ]

module _ (idna : Str → Option Str) where
  unfoldable pub build_dns_query : ℕ → Str → List ℕ
  build_dns_query id qname =
      let buf = replicate 12 0 in
      let buf = write 0 (be16 id) buf in
      let buf = write 2 (be16 0x0100) buf in
      let buf = write 4 (be16 1) buf in buf ++ (encode_dns_name idna qname ++ (be16 1 ++ be16 1))

  unfoldable pub build_named_a_response : ℕ → Str → Ipv4Addr → List ℕ
  build_named_a_response id qname ip =
      let name = encode_dns_name idna qname in
      let buf = replicate (12 + length name + 4 + 16) 0 in
      let buf = write 0 (be16 id) buf in
      let buf = write 2 (be16 0x8580) buf in
      let buf = write 4 (be16 1) buf in
      let buf = write 6 (be16 1) buf in
      let buf = write 12 name buf in
      let o = 12 + length name in
      let buf = write o (be16 1) buf in
      let o = o + 2 in
      let buf = write o (be16 1) buf in
      let o = o + 2 in
      let buf = write o (be16 0xc00c) buf in
      let o = o + 2 in
      let buf = write o (be16 1) buf in
      let o = o + 2 in
      let buf = write o (be16 1) buf in
      let o = o + 2 in
      let buf = write o (be32 300) buf in
      let o = o + 4 in
      let buf = write o (be16 4) buf in
      let o = o + 2 in let buf = write o (octets ip) buf in take (o + 4) buf

  unfoldable pub build_empty_dns : ℕ → Str → ℕ → List ℕ
  build_empty_dns id qname qtype =
      let name = encode_dns_name idna qname in
      let buf = replicate (12 + length name + 4) 0 in
      let buf = write 0 (be16 id) buf in
      let buf = write 2 (be16 0x8180) buf in
      let buf = write 4 (be16 1) buf in
      let buf = write 12 name buf in
      let o = 12 + length name in
      let buf = write o (be16 qtype) buf in let o = o + 2 in write o (be16 1) buf

-- The loop that looks for the end of the question, from `i` on; every round moves `i` forward, so
-- the length of the query is fuel enough.
unfoldable pub question_end : ℕ → List ℕ → ℕ → ℕ
question_end zero query i = i
question_end (suc n) query i =
    let more = question_end n query (i + (1 + at query i)) in
    if leb (length query) i || at query i == 0 then i else more

unfoldable pub build_a_response : List ℕ → Ipv4Addr → Option (List ℕ)
build_a_response query ip =
    let out = take 12 query in
    let out = write 2 (0x81 ∷ []) out in
    let out = write 3 (0x80 ∷ []) out in
    let out = write 6 (0 ∷ []) out in
    let out = write 7 (1 ∷ []) out in
    let i = question_end (length query) query 12 + 5 in
    let answer =
      0xc0 ∷ 0x0c ∷ 0x00 ∷ 0x01 ∷ 0x00 ∷ 0x01 ∷ 0x00 ∷ 0x00 ∷ 0x00 ∷ 0x3c ∷ 0x00 ∷ 0x04 ∷ [] in
    if ltb (length query) 12
    then none
    else if ltb (length query) i
    then none
    else some (out ++ (slice query 12 (i - 12) ++ (answer ++ octets ip)))

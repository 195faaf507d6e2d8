-- ===== src/Dns/Query.antt =====
-- The queries of crates/clash-core/src/dns.rs: `parse_dns_query` reads what `build_dns_query`
-- writes.
use rust_clash.Common.{
  ℕ, ◌+◌, ◌^◌, ◌<◌, ◌≡◌, refl, false, List, [], ◌∷◌, ◌++◌, Option, some, arith, length, drop, at,
  be16, from_be16, from_be16-be16, length-of_drop, at-of_drop, at-of_drop_zero, drop-of_part,
}
use rust_clash.Text.{Str, is_empty}
use rust_clash.Dns.{encode_dns_name, finish_query, parse_dns_query, build_dns_query}
use rust_clash.Dns.Name.{IsName, dotted, read_dns_name-encode_dns_name}

-- What stands behind the name in a question.
abbrev pub question_tail : List ℕ
question_tail = be16 1 ++ be16 1

finish_query_lem :
    (msg : List ℕ) (qname : Str) (off : ℕ) (rest : List ℕ)
    → drop off msg ≡ question_tail ++ rest
    → is_empty qname ≡ false
    → finish_query msg (qname, off) ≡ some (from_be16 (at msg 0) (at msg 1), qname, 1)
unfolding finish_query
finish_query_lem msg qname off rest h e =
    rw
      (
        at-of_drop_zero off msg (question_tail ++ rest) h,
        at-of_drop off 1 msg (question_tail ++ rest) h,
        at-of_drop off 2 msg (question_tail ++ rest) h,
        at-of_drop off 3 msg (question_tail ++ rest) h,
        e,
      )
      (ground (arith, length-of_drop off msg 0 (1 ∷ 0 ∷ 1 ∷ rest) h))

-- `parse_dns_query` reads back the identifier and the name of a query that `build_dns_query`
-- writes, with type A, for every identifier of 16 bits and every name of at most 63 ASCII labels
-- of at most 63 bytes that is not empty.
pub parse_dns_query-build_dns_query :
    (idna : Str → Option Str) (id : ℕ) (qname : Str)
    → id < 2 ^ 16
    → IsName idna qname
    → is_empty (dotted idna qname) ≡ false
    → parse_dns_query (build_dns_query idna id qname) ≡ some (id, dotted idna qname, 1)
unfolding parse_dns_query build_dns_query
parse_dns_query-build_dns_query idna id qname hid v e =
    let msg = build_dns_query idna id qname in
    let name = encode_dns_name idna qname in
    let body : drop 12 msg ≡ name ++ question_tail = refl in
    let after : drop (12 + length name) msg ≡ question_tail =
      drop-of_part 12 (length name) msg name question_tail body refl in
    rw (read_dns_name-encode_dns_name idna qname msg 12 question_tail v body) (
      ground (
        arith,
        finish_query_lem msg (dotted idna qname) (12 + length name) [] after e,
        from_be16-be16 id hid,
      ))

-- ===== src/Dns/Indexed.antt =====
-- crates/clash-core/src/dns.rs: parse_dns_query and read_dns_name with every index and slice
-- checked, so that `none` is a panic and `some none` the answer None. They answer what those of
-- Dns do.
use Prim.Native.Nat.{bit_and}
use rust_clash.Common.{
  ℕ, zero, suc, ◌+◌, ◌-◌, ◌*◌, ◌^◌, ◌≡◌, inl, inr, refl, Bool, true, false, ◌||◌, not, Option, none,
  some, List, [], ◌∷◌, ◌++◌, arith, ltb, leb, ◌==◌, if◌then◌else◌, length, at, slice, from_be16,
  Bool-cases, ◌>>=◌, Option-cases, index, index_be16, range, index-some, index_be16-some,
  range-some,
}
use rust_clash.Text.{Str, is_empty}
use rust_clash.Utf8.{from_utf8_lossy}
use rust_clash.Dns.{
  join, flags, qd_count, read_labels, read_dns_name, finish_query, parse_dns_query,
}

unfoldable pub indexed_read_labels :
    ℕ → List ℕ → ℕ → Bool → ℕ → List Str → Option (Option (Str × ℕ))
indexed_read_labels zero msg off jumped end found = some none
indexed_read_labels (suc n) msg off jumped end found =
    if leb (length msg) off then some none else (do
      len ← index msg off
      (if len == 0
          then some (some (join b'.' found, (if jumped then end else off + 1)))
          else if bit_and len 0xc0 == 0xc0
          then (if leb (length msg) (off + 1) then some none else (do
            low ← index msg (off + 1)
            indexed_read_labels n msg (bit_and len 0x3f * 2 ^ 8 + low) true
                (if jumped then end else off + 2) found))
          else if ltb (length msg) (off + 1 + len)
          then some none
          else (do
            label ← range msg (off + 1) (off + 1 + len)
            indexed_read_labels n msg (off + 1 + len) jumped end
                (found ++ (from_utf8_lossy label ∷ [])))))

unfoldable pub indexed_read_dns_name : List ℕ → ℕ → Option (Option (Str × ℕ))
unfolding indexed_read_labels
indexed_read_dns_name msg off = indexed_read_labels 64 msg off false off []

unfoldable pub indexed_finish_query : ℕ → List ℕ → Str × ℕ → Option (Option (ℕ × Str × ℕ))
indexed_finish_query id msg (qname, off) =
    if ltb (length msg) (off + 4) || is_empty qname then some none else (do
      qtype ← index_be16 msg off
      qclass ← index_be16 msg (off + 2)
      some (if qclass == 1 then some (id, qname, qtype) else none))

unfoldable pub indexed_parse_dns_query : List ℕ → Option (Option (ℕ × Str × ℕ))
indexed_parse_dns_query msg = if ltb (length msg) 12 then some none else (do
  id ← index_be16 msg 0
  set ← index_be16 msg 2
  (if not (bit_and set 0x8000 == 0) then some none else (do
    questions ← index_be16 msg 4
    (if ltb questions 1 then some none else (do
      name ← indexed_read_dns_name msg 12
      elim name [ none ↦ some none | some r ↦ indexed_finish_query id msg r ])))))

indexed_read_labels-some :
    (n : ℕ) (msg : List ℕ) (off : ℕ) (jumped : Bool) (end : ℕ) (found : List Str)
    → indexed_read_labels n msg off jumped end found ≡ some (read_labels n msg off jumped end found)
unfolding indexed_read_labels read_labels
indexed_read_labels-some zero msg off jumped end found = refl
indexed_read_labels-some (suc n) msg off jumped end found =
    let len = at msg off in
    elim (Bool-cases (leb (length msg) off)) [
      | inl over ↦ rw over refl
      | inr inside ↦
          rw (inside, index-some msg off (ground arith))
            (elim (Bool-cases (len == 0)) [
              | inl last ↦ rw last refl
              | inr more ↦ rw more (elim (Bool-cases (bit_and len 0xc0 == 0xc0)) [
                | inl pointer ↦ rw pointer (elim (Bool-cases (leb (length msg) (off + 1))) [
                  | inl short ↦ rw short refl
                  | inr long ↦
                      rw (long, index-some msg (off + 1) (ground arith))
                        (indexed_read_labels-some n msg
                          (bit_and len 0x3f * 2 ^ 8 + at msg (off + 1)) true
                          (if jumped then end else off + 2) found)
                ])
                | inr plain ↦ rw plain (elim (Bool-cases (ltb (length msg) (off + 1 + len))) [
                  | inl short ↦ rw short refl
                  | inr long ↦
                      let size : off + 1 + len - (off + 1) ≡ len = omega arith in
                      rw
                        (
                          long,
                          range-some msg (off + 1) (off + 1 + len) (omega arith) (ground arith),
                          size,
                        )
                        (indexed_read_labels-some n msg (off + 1 + len) jumped end
                          (found ++ (from_utf8_lossy (slice msg (off + 1) len) ∷ [])))
                ])
              ])
            ])
    ]

indexed_read_dns_name-some :
    (msg : List ℕ) (off : ℕ) → indexed_read_dns_name msg off ≡ some (read_dns_name msg off)
unfolding indexed_read_dns_name read_dns_name
indexed_read_dns_name-some msg off = indexed_read_labels-some 64 msg off false off []

indexed_finish_query-some :
    (msg : List ℕ) (qname : Str) (off : ℕ)
    → indexed_finish_query (from_be16 (at msg 0) (at msg 1)) msg (qname, off)
      ≡ some (finish_query msg (qname, off))
unfolding indexed_finish_query finish_query
indexed_finish_query-some msg qname off =
    elim (Bool-cases (ltb (length msg) (off + 4) || is_empty qname)) [
      | inl bad ↦ rw bad refl
      | inr good ↦
          let next : off + 2 + 1 ≡ off + 3 = omega arith in
          rw
            (
              good,
              index_be16-some msg off (ground arith),
              index_be16-some msg (off + 2) (ground arith),
              next,
            )
            (elim (Bool-cases (from_be16 (at msg (off + 2)) (at msg (off + 3)) == 1)) [
              | inl one ↦ rw one refl
              | inr other ↦ rw other refl
            ])
    ]

pub indexed_parse_dns_query-some :
    (msg : List ℕ) → indexed_parse_dns_query msg ≡ some (parse_dns_query msg)
unfolding indexed_parse_dns_query parse_dns_query
indexed_parse_dns_query-some msg = elim (Bool-cases (ltb (length msg) 12)) [
  | inl short ↦ rw (indexed_parse_dns_query, parse_dns_query, short) refl
  | inr long ↦
      rw
        (
          indexed_parse_dns_query,
          parse_dns_query,
          long,
          index_be16-some msg 0 (ground arith),
          index_be16-some msg 2 (ground arith),
        )
        (elim (Bool-cases (not (bit_and (flags msg) 0x8000 == 0))) [
          | inl response ↦ rw response refl
          | inr query ↦
              rw (query, index_be16-some msg 4 (ground arith))
                (elim (Bool-cases (ltb (qd_count msg) 1)) [
                  | inl none_asked ↦ rw none_asked refl
                  | inr asked ↦
                      rw (asked, indexed_read_dns_name-some msg 12)
                        (elim (Option-cases (read_dns_name msg 12)) [
                          | inl e ↦ rw e refl
                          | inr ((qname, off), e) ↦ rw e (indexed_finish_query-some msg qname off)
                        ])
                ])
        ])
]

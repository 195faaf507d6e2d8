-- ===== src/Dns/Tests.antt =====
-- Runs of the DNS messages of crates/clash-core/src/dns.rs, and the theorems at concrete inputs.
use rust_clash.Common.{◌≡◌, ◌++◌, refl, Option, some, none, ◌∷◌, [], arith, be16, be32, length, ◌+◌}
use rust_clash.Net.{Ipv4Addr, IpAddr, octets}
use rust_clash.Text.{Str, codes}
use rust_clash.Utils.{domain_to_ascii}
use rust_clash.Utf8.{as_bytes, from_utf8_lossy}
use rust_clash.Dns.{
  split, drop_empty, join, encode_labels, labels, encode_dns_name, read_labels, read_dns_name,
  finish_query, parse_dns_query, skip_questions, read_answers, parse_a_answers, build_dns_query,
  build_named_a_response, build_empty_dns, question_end, build_a_response,
}
use rust_clash.Dns.Name.{IsName, dotted, read_dns_name-encode_dns_name}
use rust_clash.Dns.Query.{parse_dns_query-build_dns_query}
use rust_clash.Dns.Response.{parse_a_answers-build_named_a_response}
use rust_clash.Dns.Echo.{build_a_response_lem}

program : Unit {0}
unfolding split drop_empty join encode_labels labels encode_dns_name read_labels read_dns_name
    finish_query parse_dns_query skip_questions read_answers parse_a_answers build_dns_query
    build_named_a_response build_empty_dns question_end build_a_response as_bytes from_utf8_lossy
    domain_to_ascii
program = tt

abbrev no_idna : Str → Option Str
no_idna s = none

abbrev ip : Ipv4Addr
ip = record { a = 1; b = 2; c = 3; d = 4 }

abbrev host : Str
host = codes "Example.COM"

named : parse_a_answers (build_named_a_response no_idna 42 host ip) ≡ some (IpAddr.v4 ip ∷ [])
unfolding program
named = refl

query_run : parse_dns_query (build_dns_query no_idna 7 host) ≡ some (7, codes "example.com", 1)
unfolding program
query_run = refl

-- A length byte of 64 to 191 is taken for a length.
long_label : read_dns_name (64 ∷ []) 0 ≡ none
unfolding program
long_label = refl

-- A pointer that leads to itself ends with the rounds.
pointer_loop : read_dns_name (0xc0 ∷ 0x00 ∷ []) 0 ≡ none
unfolding program
pointer_loop = refl

host-IsName : IsName no_idna host
unfolding program
host-IsName = record { count = omega arith; each = omega arith }

read_dns_name-encode_dns_name_example :
    read_dns_name (9 ∷ 9 ∷ (encode_dns_name no_idna host ++ (7 ∷ []))) 2
    ≡ some (dotted no_idna host, 2 + length (encode_dns_name no_idna host))
read_dns_name-encode_dns_name_example =
    read_dns_name-encode_dns_name no_idna host (9 ∷ 9 ∷ (encode_dns_name no_idna host ++ (7 ∷ [])))
      2 (7 ∷ []) host-IsName refl

parse_dns_query-build_dns_query_example :
    parse_dns_query (build_dns_query no_idna 7 host) ≡ some (7, dotted no_idna host, 1)
unfolding program
parse_dns_query-build_dns_query_example =
    parse_dns_query-build_dns_query no_idna 7 host (omega arith) host-IsName refl

parse_a_answers-build_named_a_response_example :
    parse_a_answers (build_named_a_response no_idna 42 host ip) ≡ some (IpAddr.v4 ip ∷ [])
unfolding program
parse_a_answers-build_named_a_response_example =
    parse_a_answers-build_named_a_response no_idna 42 host host-IsName ip (omega arith)

build_a_response_lem_example :
    build_a_response
      (1
        ∷ 2
        ∷ 1
        ∷ 0
        ∷ 0
        ∷ 1
        ∷ 0
        ∷ 0
        ∷ 0
        ∷ 0
        ∷ 0
        ∷ 1
        ∷ (encode_labels (codes "a" ∷ []) ++ (0 ∷ 1 ∷ 0 ∷ 1 ∷ 41 ∷ [])))
      ip
    ≡ some (
        1
        ∷ 2
        ∷ 0x81
        ∷ 0x80
        ∷ 0
        ∷ 1
        ∷ 0
        ∷ 1
        ∷ 0
        ∷ 0
        ∷ 0
        ∷ 1
        ∷ (encode_labels (codes "a" ∷ [])
            ++ (0
                ∷ 1
                ∷ 0
                ∷ 1
                ∷ (be16 0xc00c ++ (be16 1 ++ (be16 1 ++ (be32 60 ++ (be16 4 ++ octets ip))))))))
build_a_response_lem_example =
    build_a_response_lem 1 2 1 0 0 1 0 0 0 0 0 1 (codes "a" ∷ []) 0 1 0 1 (41 ∷ []) ip (omega arith)

-- ===== src/Obfs/Http/Tests.antt =====
-- crates/clash-proxynet/src/obfs.rs: a request, and its body.
use rust_clash.Common.{
  ℕ, zero, suc, ◌<◌, ◌≡◌, refl, List, [], ◌∷◌, arith, length, All, replicate, length-replicate,
  contains,
}
use rust_clash.Text.{codes, is_empty}
use rust_clash.Utf8.{as_bytes}
use rust_clash.Decimal.{to_string}
use rust_clash.Io.{Turn, reads}
use rust_clash.Io.Steps.{Gives}
use rust_clash.Io.Writer.{write_all}
use rust_clash.Obfs.Http.{HttpWrite, Draws, new_read, new_write, reader, writer, build_http_request}
use rust_clash.Obfs.Http.Tunnel.{reads_http_wire}

digits_run : to_string 1060 ≡ codes "1060"
unfolding to_string
digits_run = refl

abbrev draws : Draws
draws = record { ws = codes "c2VjcmV0"; major = 60; minor = 3 }

abbrev buf : List ℕ
buf = 112 ∷ 105 ∷ 110 ∷ 103 ∷ []

abbrev turns : List Turn
turns = replicate 400 (Turn.gives 20)

calls_give : (n : ℕ) → All Gives (replicate n (Turn.gives 20))
calls_give zero = tt
calls_give (suc n) = (tt, calls_give n)

length-request : length (build_http_request draws [] (codes "example.com") buf) ≡ 154
unfolding build_http_request as_bytes is_empty to_string
length-request = refl

reads_http_wire_example :
    (write_all (writer draws [] (codes "example.com")) new_write buf (replicate 4 turns)
      ≡ (HttpWrite.pass, build_http_request draws [] (codes "example.com") buf, []))
    × (reads reader
          (replicate 4 3)
          new_read
          (write_all (writer draws [] (codes "example.com")) new_write buf (replicate 4 turns)).1
          turns
        ≡ buf)
unfolding as_bytes contains
reads_http_wire_example =
    let long = length-replicate 400 (Turn.gives 20) in
    let ample : All Gives turns
        × (length (build_http_request draws [] (codes "example.com") buf) < length turns) =
      (calls_give 400, omega (arith, length-request, long)) in
    reads_http_wire draws [] (codes "example.com") buf (replicate 4 3) (replicate 4 turns) turns
      refl refl refl (omega (arith, length-request)) (omega arith) (omega arith)
      (ample, (ample, (ample, (ample, tt))))
      (omega arith, (omega arith, (omega arith, (omega arith, tt)))) (omega arith) (calls_give 400)
      (omega (arith, length-request, long))

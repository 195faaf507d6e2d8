-- ===== src/Obfs/Tls/Tests.antt =====
-- crates/clash-proxynet/src/obfs.rs: a buffer that is longer than a record.
use rust_clash.Common.{
  ℕ, zero, suc, ◌+◌, ◌*◌, ◌^◌, ◌<◌, ◌≡◌, refl, List, [], ◌∷◌, ◌++◌, arith, length, All, replicate,
  length-replicate, at, from_be16, take, drop,
}
use rust_clash.Io.{Turn, reads}
use rust_clash.Io.Steps.{Gives}
use rust_clash.Io.Writer.{write_all}
use rust_clash.Obfs.Tls.{
  TlsWrite, Draws, new_read, new_write, reader, writer, build_tls_client_hello,
}
use rust_clash.Obfs.Tls.Hello.{build_tls_client_hello_lem}
use rust_clash.Obfs.Tls.Tunnel.{reads_tls_wire}

abbrev draws : Draws
draws = record { random = replicate 32 5; unix = 1700000000; session = replicate 32 6 }

abbrev host : List ℕ
host = 97 ∷ 46 ∷ 98 ∷ []

abbrev buf : List ℕ
buf = replicate 16390 7

abbrev turns : List Turn
turns = replicate 17100 (Turn.gives 2000)

supply : List (List Turn)
supply = replicate 16390 turns

calls_give : (n : ℕ) → All Gives (replicate n (Turn.gives 2000))
calls_give zero = tt
calls_give (suc n) = (tt, calls_give n)

calls_ample :
    (n : ℕ) → All (λ t. All Gives t × (17000 + length host < length t)) (replicate n turns)
calls_ample zero = tt
calls_ample (suc n) =
    ((calls_give 17100, omega (arith, length-replicate 17100 (Turn.gives 2000))), calls_ample n)

calls_room : (n : ℕ) → All (λ room. 0 < room) (replicate n 100)
calls_room zero = tt
calls_room (suc n) = (omega arith, calls_room n)

wire_length : ℕ
wire_length = 105 + length (write_all (writer draws host) new_write buf supply).1 + 16390

reads_tls_wire_example :
    (first rest tail : List ℕ) × (buf ≡ first ++ rest)
    × (write_all (writer draws host) new_write buf supply
        ≡ (TlsWrite.rec_body 0, build_tls_client_hello draws host first ++ tail, []))
    × (reads reader
          (replicate 16390 100)
          new_read
          (replicate 105 1 ++ tail)
          (replicate wire_length (Turn.gives 2000))
        ≡ rest)
unfolding supply wire_length
reads_tls_wire_example =
    let greeting : List ℕ = replicate 105 1 in
    reads_tls_wire draws host buf greeting (replicate 16390 100) supply
      (replicate wire_length (Turn.gives 2000)) refl refl
      (omega (arith, length-replicate {A = ℕ} 16390 7))
      (omega (arith, length-replicate {A = ℕ} 16390 7, length-replicate 16390 turns))
      (calls_ample 16390) (length-replicate {A = ℕ} 105 1) (calls_room 16390)
      (omega (arith, length-replicate {A = ℕ} 16390 7, length-replicate {A = ℕ} 16390 100))
      (calls_give wire_length)
      (omega (
        arith,
        length-replicate {A = ℕ} 105 1,
        length-replicate {A = ℕ} 16390 100,
        length-replicate wire_length (Turn.gives 2000),
      ))

build_tls_client_hello_lem_example :
    (let h = build_tls_client_hello draws host (1 ∷ 2 ∷ 3 ∷ []) in
      (from_be16 (at h 3) (at h 4) ≡ length (drop 5 h))
      × (at h 6 * 2 ^ 16 + from_be16 (at h 7) (at h 8) ≡ length (drop 9 h))
      × (from_be16 (at h 136) (at h 137) ≡ length (drop 138 h))
      × (take (from_be16 (at h 140) (at h 141)) (drop 142 h) ≡ 1 ∷ 2 ∷ 3 ∷ []))
build_tls_client_hello_lem_example =
    build_tls_client_hello_lem draws host (1 ∷ 2 ∷ 3 ∷ []) refl refl (omega arith)

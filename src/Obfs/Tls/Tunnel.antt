-- ===== src/Obfs/Tls/Tunnel.antt =====
-- crates/clash-proxynet/src/obfs.rs: what one stream writes, another one reads.
use rust_clash.Common.{
  ℕ, zero, suc, ◌+◌, ◌<◌, ◌≤◌, ◌≡◌, refl, ◌∙◌, ap, List, [], ◌∷◌, ◌++◌, arith, length, All, concat,
  length-append, length-take,
}
use Prim.Native.Nat.{min}
use mathlib.Core.List.{append-nil}
use rust_clash.Io.{Turn, reads}
use rust_clash.Io.Steps.{Gives}
use rust_clash.Io.Reads.{reads_whole}
use rust_clash.Io.Writer.{write_all}
use rust_clash.Io.Writer.Law.{write_all_keeps, write_all_whole, Accounts}
use rust_clash.Obfs.Tls.{
  TlsWrite, Draws, new_read, new_write, reader, writer, chunk, build_tls_client_hello, max_record,
}
use rust_clash.Obfs.Tls.Records.{records, IsRecord}
use rust_clash.Obfs.Tls.Read.{Due, reader-IsLawful}
use rust_clash.Obfs.Tls.Write.{Account, cost, writer-IsHonest}
use rust_clash.Obfs.Tls.Hello.{length-build_tls_client_hello}

length-records : (ps : List (List ℕ)) → length (concat ps) ≤ length (records ps)
length-records [] = omega arith
length-records (p ∷ ps) =
    omega (arith, length-records ps, length-append p (concat ps), length-append p (records ps))

module _ (draws : Draws) (host : List ℕ) where
  -- When nothing is left, the wire is a hello and records.
  finished :
      (buf : List ℕ) (r : TlsWrite × List ℕ × List ℕ)
      → 0 < length buf
      → r.2 ≡ []
      → Accounts
          (Account draws host)
          (cost draws host)
          (writer draws host)
          (writer-IsHonest draws host)
          []
          buf
          r
      → (first : List ℕ) × (ps : List (List ℕ)) × All IsRecord ps
        × (r ≡ (TlsWrite.rec_body 0, build_tls_client_hello draws host first ++ records ps, []))
        × (buf ≡ first ++ concat ps)
  finished buf (state, wire, b ∷ left) p none_left h = absurd (omega (arith, ap length none_left))
  finished buf (TlsWrite.hello, wire, []) p none_left (taken, a, e) =
      absurd (omega (arith, p, ap length e, ap length a.1, length-append taken []))
  finished buf (TlsWrite.flush cur, wire, []) p none_left (taken, a, e) =
      absurd (omega (arith, p, ap length e, ap length a.2, length-append taken []))
  finished buf (TlsWrite.rec_hdr payload off, wire, []) p none_left (taken, a, e) =
      absurd (omega (arith, a.0, a.1))
  finished buf (TlsWrite.rec_body zero, wire, []) p none_left (taken, (first, ps, sent), e) = (
    first,
    ps,
    sent.0,
    ap (λ w. (TlsWrite.rec_body 0, w, [])) sent.1,
    e ∙ append-nil taken ∙ sent.2,
  )
  finished buf (TlsWrite.rec_body (suc more), wire, []) p none_left (taken, a, e) =
      absurd (omega (arith, a.0))

  cheap :
      length draws.random ≡ 32
      → length draws.session ≡ 32
      → (state : TlsWrite) (out taken rest : List ℕ) → Account draws host state out taken rest
      → cost draws host state rest ≤ 17000 + length host
  unfolding cost
  cheap r s TlsWrite.hello out taken rest a = omega (
    arith,
    length-build_tls_client_hello draws host (chunk rest) r s,
    length-take (min (length rest) max_record) rest,
  )
  cheap r s (TlsWrite.flush cur) out taken rest a = omega (
    arith,
    length-build_tls_client_hello draws host (chunk rest) r s,
    length-take (min (length rest) max_record) rest,
    ap length a.1,
    length-append out cur,
  )
  cheap r s (TlsWrite.rec_hdr payload off) out taken rest a = omega arith
  cheap r s (TlsWrite.rec_body zero) out taken rest a = omega arith
  cheap r s (TlsWrite.rec_body (suc more)) out taken rest a = omega arith

  -- Streams dressed as TLS over one another. With 32 random bytes and a session of 32, a new
  -- stream writes a buffer that is not empty, with turns that let bytes through, for each call
  -- more than 17,000 and the length of the host, and as many calls as bytes. Then nothing of the
  -- buffer is left, and the wire is the hello with a first part of the buffer, and `tail`. From a
  -- server that answers by a greeting of 105 bytes and such a tail, a new stream reads exactly the
  -- rest of the buffer, when the bytes arrive, in whatever pieces, and there are as many calls as
  -- bytes, each with room in its buffer.
  pub reads_tls_wire :
      (buf greeting rooms : List ℕ) (supply : List (List Turn)) (turns : List Turn)
      → length draws.random ≡ 32
      → length draws.session ≡ 32
      → 0 < length buf
      → length buf ≤ length supply
      → All (λ turns. All Gives turns × (17000 + length host < length turns)) supply
      → length greeting ≡ 105
      → All (λ room. 0 < room) rooms
      → length buf ≤ length rooms
      → All Gives turns
      → length greeting
          + length (write_all (writer draws host) new_write buf supply).1
          + length rooms
        ≤ length turns
      → (first rest tail : List ℕ) × (buf ≡ first ++ rest)
        × (write_all (writer draws host) new_write buf supply
            ≡ (TlsWrite.rec_body 0, build_tls_client_hello draws host first ++ tail, []))
        × (reads reader rooms new_read (greeting ++ tail) turns ≡ rest)
  reads_tls_wire buf greeting rooms supply turns r s p n g q room few give t =
      let out = write_all (writer draws host) new_write buf supply in
      let honest = writer-IsHonest draws host in
      let left : out.2 ≡ [] =
        write_all_whole (Account draws host) (cost draws host) (writer draws host) honest
          (17000 + length host) new_write [] [] buf supply (λ t o b l a less. cheap r s t o b l a) g
          (refl, refl) n in
      let (first, ps, all, e, cut) = finished buf out p left (
        write_all_keeps (Account draws host) (cost draws host) (writer draws host) honest new_write
          [] [] buf supply (refl, refl)) in
      let size = length-append first (concat ps) in
      let wire = length-append (build_tls_client_hello draws host first) (records ps) in
      (
        first,
        concat ps,
        records ps,
        cut,
        e,
        reads_whole Due reader reader-IsLawful rooms new_read (greeting ++ records ps) (concat ps)
            turns room (greeting, records ps, refl, q, omega arith, (ps, all, refl, refl)) give
            (omega (arith, ap length cut, size))
            (omega (arith, t, ap (λ o. length o.1) e, length-append greeting (records ps), wire)),
      )

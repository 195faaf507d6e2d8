-- ===== src/Obfs/Tls.antt =====
-- crates/clash-proxynet/src/obfs.rs: TlsObfsStream. Reading and writing share no field but the
-- host, so that each has its own state. The randomness and the clock of the hello are arguments.
mod Records
mod Read
mod Write
mod Tunnel
mod Hello
mod Tests
use rust_clash.Common.{
  ℕ, zero, suc, ◌+◌, ◌-◌, ◌*◌, ◌/◌, ◌%◌, ◌^◌, Bool, true, false, List, [], ◌∷◌, ◌++◌, ltb, leb,
  ◌==◌, if◌then◌else◌, length, take, drop, at, be16, be32, from_be16,
}
use Prim.Native.Nat.{min}
use rust_clash.Io.{IoError, Poll, Next, Fed, Reader}
use rust_clash.Io.Writer.{Offer, Took, Writer}

abbrev pub hello_skip : ℕ
hello_skip = 96 + 6 + 3

-- `max` is the `MAX` of poll_write.
abbrev pub max_record : ℕ
max_record = 16 * 1024

-- `hdr` is the part of the header that was read.
pub data TlsRead : Type 0 where
  skip : ℕ → TlsRead
  hdr : List ℕ → TlsRead
  body : ℕ → TlsRead

-- `flush` is what is left behind the position of the cursor.
pub data TlsWrite : Type 0 where
  hello : TlsWrite
  flush : List ℕ → TlsWrite
  rec_hdr : ℕ → ℕ → TlsWrite
  rec_body : ℕ → TlsWrite

abbrev pub new_read : TlsRead
new_read = TlsRead.skip hello_skip

abbrev pub new_write : TlsWrite
new_write = TlsWrite.hello

unfoldable pub settle : ℕ → TlsRead → Next TlsRead
settle room (TlsRead.skip left) = Next.want (min left 128) (TlsRead.skip left)
settle room (TlsRead.hdr part) = Next.want (5 - length part) (TlsRead.hdr part)
settle room (TlsRead.body left) = Next.want (min left room) (TlsRead.body left)

unfoldable pub feed_some : TlsRead → List ℕ → Fed TlsRead
feed_some (TlsRead.skip left) got =
    if left - length got == 0
    then Fed.again (TlsRead.hdr [])
    else Fed.again (TlsRead.skip (left - length got))
feed_some (TlsRead.hdr part) got =
    let header = part ++ got in
    if ltb (length header) 5
    then Fed.again (TlsRead.hdr header)
    else Fed.again (TlsRead.body (from_be16 (at header 3) (at header 4)))
feed_some (TlsRead.body left) got =
    if left - length got == 0
    then Fed.done (Poll.ready got) (TlsRead.hdr [])
    else Fed.done (Poll.ready got) (TlsRead.body (left - length got))

unfoldable pub feed : TlsRead → List ℕ → Fed TlsRead
unfolding feed_some
feed s [] = Fed.done (Poll.failed IoError.unexpected_eof) s
feed s (g ∷ got) = feed_some s (g ∷ got)

-- `poll_read` is `Io.poll` of this reader.
abbrev pub reader : Reader TlsRead
reader = record { settle = settle; feed = feed }

abbrev pub suites : List ℕ
suites =
    0xc0 ∷ 0x2c ∷ 0xc0 ∷ 0x30 ∷ 0x00 ∷ 0x9f ∷ 0xcc ∷ 0xa9 ∷ 0xcc ∷ 0xa8 ∷ 0xcc ∷ 0xaa ∷ 0xc0 ∷ 0x2b
    ∷ 0xc0 ∷ 0x2f ∷ 0x00 ∷ 0x9e ∷ 0xc0 ∷ 0x24 ∷ 0xc0 ∷ 0x28 ∷ 0x00 ∷ 0x6b ∷ 0xc0 ∷ 0x23 ∷ 0xc0
    ∷ 0x27 ∷ 0x00 ∷ 0x67 ∷ 0xc0 ∷ 0x0a ∷ 0xc0 ∷ 0x14 ∷ 0x00 ∷ 0x39 ∷ 0xc0 ∷ 0x09 ∷ 0xc0 ∷ 0x13
    ∷ 0x00 ∷ 0x33 ∷ 0x00 ∷ 0x9d ∷ 0x00 ∷ 0x9c ∷ 0x00 ∷ 0x3d ∷ 0x00 ∷ 0x3c ∷ 0x00 ∷ 0x35 ∷ 0x00
    ∷ 0x2f ∷ 0x00 ∷ 0xff ∷ []

abbrev pub others : List ℕ
others =
    0x00 ∷ 0x0b ∷ 0x00 ∷ 0x04 ∷ 0x03 ∷ 0x01 ∷ 0x00 ∷ 0x02 ∷ 0x00 ∷ 0x0a ∷ 0x00 ∷ 0x0a ∷ 0x00 ∷ 0x08
    ∷ 0x00 ∷ 0x1d ∷ 0x00 ∷ 0x17 ∷ 0x00 ∷ 0x19 ∷ 0x00 ∷ 0x18 ∷ 0x00 ∷ 0x0d ∷ 0x00 ∷ 0x20 ∷ 0x00
    ∷ 0x1e ∷ 0x06 ∷ 0x01 ∷ 0x06 ∷ 0x02 ∷ 0x06 ∷ 0x03 ∷ 0x05 ∷ 0x01 ∷ 0x05 ∷ 0x02 ∷ 0x05 ∷ 0x03
    ∷ 0x04 ∷ 0x01 ∷ 0x04 ∷ 0x02 ∷ 0x04 ∷ 0x03 ∷ 0x03 ∷ 0x01 ∷ 0x03 ∷ 0x02 ∷ 0x03 ∷ 0x03 ∷ 0x02
    ∷ 0x01 ∷ 0x02 ∷ 0x02 ∷ 0x02 ∷ 0x03 ∷ 0x00 ∷ 0x16 ∷ 0x00 ∷ 0x00 ∷ 0x00 ∷ 0x17 ∷ 0x00 ∷ 0x00 ∷ []

-- What the hello draws: the 32 random bytes, of which the first four are overwritten, the seconds
-- since 1970, and the 32 bytes of the session.
pub record Draws : Type 0 where
  pub random : List ℕ
  pub unix : ℕ
  pub session : List ℕ

abbrev pub ticket : List ℕ → List ℕ
ticket payload = be16 0x23 ++ (be16 (length payload) ++ payload)

abbrev pub sni : List ℕ → List ℕ
sni host =
    let inner_len = 3 + length host in
    be16 0 ++ (be16 (inner_len + 2) ++ (be16 inner_len ++ (0 ∷ (be16 (length host) ++ host))))

abbrev pub hello_body : Draws → List ℕ → List ℕ → List ℕ
hello_body draws host payload =
    let ext_len = length (ticket payload) + length (sni host) + length others in
    be16 0x303
    ++ (be32 draws.unix
        ++ drop 4 draws.random
        ++ (32 ∷ draws.session
            ++ (be16 (length suites)
                ++ (suites
                    ++ (1 ∷ 0 ∷ (be16 ext_len ++ (ticket payload ++ (sni host ++ others))))))))

unfoldable pub build_tls_client_hello : Draws → List ℕ → List ℕ → List ℕ
build_tls_client_hello draws host payload =
    let inside = hello_body draws host payload in
    let hs_len = length inside in
    let rec_len = 4 + hs_len in
    0x16
    ∷ (be16 0x301 ++ (be16 rec_len ++ (1 ∷ (hs_len / 2 ^ 16 % 2 ^ 8) ∷ (be16 hs_len ++ inside))))

-- The header of a record, `TLS_RECORD` and the length.
abbrev pub header : ℕ → List ℕ
header payload = 0x17 ∷ 3 ∷ 3 ∷ be16 payload

-- The part of the buffer that goes into one record.
abbrev pub chunk : List ℕ → List ℕ
chunk buf = take (min (length buf) max_record) buf

module _ (draws : Draws) (host : List ℕ) where
  -- The loop of `poll_write` up to the write to the inner stream.
  unfoldable pub offer : TlsWrite → List ℕ → Offer TlsWrite
  unfolding build_tls_client_hello
  offer TlsWrite.hello buf =
      let first = build_tls_client_hello draws host (chunk buf) in
      Offer.put first (TlsWrite.flush first)
  offer (TlsWrite.flush cur) buf = Offer.put cur (TlsWrite.flush cur)
  offer (TlsWrite.rec_hdr payload off) buf =
      Offer.put (drop off (header payload)) (TlsWrite.rec_hdr payload off)
  offer (TlsWrite.rec_body zero) buf =
      let n = min (length buf) max_record in Offer.put (header n) (TlsWrite.rec_hdr n 0)
  offer (TlsWrite.rec_body (suc left)) buf =
      Offer.put (take (min (length buf) (suc left)) buf) (TlsWrite.rec_body (suc left))

  -- And from there on.
  unfoldable pub took : TlsWrite → List ℕ → ℕ → Took TlsWrite
  took TlsWrite.hello buf n = Took.more TlsWrite.hello
  took (TlsWrite.flush cur) buf n =
      if leb (length cur) n
      then Took.accept (Poll.ready (min (length buf) max_record)) (TlsWrite.rec_body 0)
      else Took.more (TlsWrite.flush (drop n cur))
  took (TlsWrite.rec_hdr payload off) buf n =
      if n == 0
      then Took.accept (Poll.failed IoError.write_zero) (TlsWrite.rec_hdr payload off)
      else if leb 5 (off + n)
      then Took.more (TlsWrite.rec_body payload)
      else Took.more (TlsWrite.rec_hdr payload (off + n))
  took (TlsWrite.rec_body left) buf n =
      if n == 0
      then Took.accept (Poll.failed IoError.write_zero) (TlsWrite.rec_body left)
      else Took.accept (Poll.ready n) (TlsWrite.rec_body (left - n))

  -- `poll_write` is `poll_out` of this writer.
  abbrev pub writer : Writer TlsWrite
  writer = record { offer = offer; took = took }

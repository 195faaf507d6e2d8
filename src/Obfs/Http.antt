-- ===== src/Obfs/Http.antt =====
-- crates/clash-proxynet/src/obfs.rs: HttpObfsStream. Reading and writing share no field, so that
-- each has its own state. The base64 of a random key and the two random numbers of the user agent
-- are arguments.
mod Header
mod Read
mod Write
mod Tunnel
mod Tests
use rust_clash.Common.{
  ℕ, zero, suc, ◌+◌, ◌-◌, ◌%◌, Bool, true, false, Option, none, some, List, [], ◌∷◌, ◌++◌, ltb, leb,
  ◌==◌, if◌then◌else◌, length, take, drop, list_beq, nat_eq,
}
use Prim.Native.Nat.{min}
use rust_clash.Text.{Str, codes, is_empty}
use rust_clash.Utf8.{as_bytes}
use rust_clash.Decimal.{to_string}
use rust_clash.Io.{IoError, Poll, Next, Fed, Reader}
use rust_clash.Io.Writer.{Offer, Took, Writer}

abbrev pub later : Option ℕ → Option ℕ
later none = none
later (some n) = some (suc n)

-- The first window of four bytes that is the end of a header, and the position behind it.
unfoldable pub find_header_end : List ℕ → Option ℕ
find_header_end [] = none
find_header_end (b ∷ buf) =
    let rest = find_header_end buf in
    if list_beq (take 4 (b ∷ buf)) (13 ∷ 10 ∷ 13 ∷ 10 ∷ []) then some 4 else later rest

-- `leftover` is what is behind the position of the cursor.
pub data HttpRead : Type 0 where
  header : List ℕ → HttpRead
  leftover : List ℕ → HttpRead
  transfer : HttpRead

pub data HttpWrite : Type 0 where
  first : HttpWrite
  flush : List ℕ → HttpWrite
  pass : HttpWrite

abbrev pub new_read : HttpRead
new_read = HttpRead.header []

abbrev pub new_write : HttpWrite
new_write = HttpWrite.first

unfoldable pub settle : ℕ → HttpRead → Next HttpRead
settle room (HttpRead.header acc) =
    if ltb 4096 (length acc)
    then Next.stop (Poll.failed IoError.other) (HttpRead.header acc)
    else Next.want 256 (HttpRead.header acc)
settle room (HttpRead.leftover []) = Next.want room HttpRead.transfer
settle room (HttpRead.leftover (b ∷ rest)) =
    let n = min (length (b ∷ rest)) room in
    if n == length (b ∷ rest)
    then Next.stop (Poll.ready (take n (b ∷ rest))) HttpRead.transfer
    else Next.stop (Poll.ready (take n (b ∷ rest))) (HttpRead.leftover (drop n (b ∷ rest)))
settle room HttpRead.transfer = Next.want room HttpRead.transfer

unfoldable pub feed_header : List ℕ → HttpRead
unfolding find_header_end
feed_header acc = elim (find_header_end acc) [
  | none ↦ HttpRead.header acc
  | some pos ↦ HttpRead.leftover (drop pos acc)
]

unfoldable pub feed : HttpRead → List ℕ → Fed HttpRead
unfolding feed_header
feed (HttpRead.header acc) [] = Fed.done (Poll.failed IoError.unexpected_eof) (HttpRead.header acc)
feed (HttpRead.header acc) (g ∷ got) = Fed.again (feed_header (acc ++ (g ∷ got)))
feed s got = Fed.done (Poll.ready got) s

-- `poll_read` is `Io.poll` of this reader.
abbrev pub reader : Reader HttpRead
reader = record { settle = settle; feed = feed }

-- What the request draws: the key in base64, and two numbers of 32 bits.
pub record Draws : Type 0 where
  pub ws : Str
  pub major : ℕ
  pub minor : ℕ

unfoldable pub build_http_request : Draws → Str → Str → List ℕ → List ℕ
unfolding as_bytes to_string
build_http_request draws path host body =
    as_bytes (codes "GET ")
    ++ (as_bytes (if is_empty path then codes "/" else path)
        ++ (as_bytes (codes " HTTP/1.1\r\nHost: ")
            ++ (as_bytes host
                ++ (as_bytes (codes "\r\nUser-Agent: curl/7.")
                    ++ (as_bytes (to_string (draws.major % 51))
                        ++ (as_bytes (codes ".")
                            ++ (as_bytes (to_string (draws.minor % 2))
                                ++ (as_bytes (
                                      codes
                                        "\r\nUpgrade: websocket\r\nConnection: Upgrade\r\nSec-WebSocket-Key: ")
                                    ++ (as_bytes draws.ws
                                        ++ (as_bytes (codes "\r\nContent-Length: ")
                                            ++ (as_bytes (to_string (length body))
                                                ++ (as_bytes (codes "\r\n\r\n") ++ body))))))))))))

module _ (draws : Draws) (path host : Str) where
  -- The loop of `poll_write` up to the write to the inner stream.
  unfoldable pub offer : HttpWrite → List ℕ → Offer HttpWrite
  unfolding build_http_request
  offer HttpWrite.first buf =
      let req = build_http_request draws path host buf in Offer.put req (HttpWrite.flush req)
  offer (HttpWrite.flush cur) buf = Offer.put cur (HttpWrite.flush cur)
  offer HttpWrite.pass buf = Offer.put buf HttpWrite.pass

  -- And from there on.
  unfoldable pub took : HttpWrite → List ℕ → ℕ → Took HttpWrite
  took HttpWrite.first buf n = Took.more HttpWrite.first
  took (HttpWrite.flush cur) buf n =
      if leb (length cur) n
      then Took.accept (Poll.ready (length buf)) HttpWrite.pass
      else Took.more (HttpWrite.flush (drop n cur))
  took HttpWrite.pass buf n = Took.accept (Poll.ready n) HttpWrite.pass

  -- `poll_write` is `poll_out` of this writer.
  abbrev pub writer : Writer HttpWrite
  writer = record { offer = offer; took = took }

-- ===== src/WebSocket.antt =====
-- crates/clash-proxynet/src/transport.rs: the frames of a WebSocket and the stream of them. Its
-- inner stream is the PrefixedStream, of which the bytes that came with the upgrade are the first.
-- The states of reading and writing share no field. `usize` has 64 bits; `mask_key` says what the
-- n-th call of mask_key draws.
mod Frame
mod Read
mod Write
mod Tunnel
mod Tests
use rust_clash.Common.{
  ℕ, zero, suc, ◌+◌, ◌-◌, ◌*◌, ◌/◌, ◌%◌, ◌^◌, Bool, true, false, List, [], ◌∷◌, ◌++◌, ltb, leb,
  ◌==◌, ◌||◌, if◌then◌else◌, length, take, drop, at, replicate, be16, be32, from_be16,
}
use Prim.Native.Nat.{min, bit_xor}
use rust_clash.Io.{IoError, Poll, Next, Fed, Reader}
use rust_clash.Io.Writer.{Offer, Took, Writer}

pub data WsEvent : Type 0 where
  payload : List ℕ → WsEvent
  skip close : WsEvent

-- The answer of parse_ws_frame: none yet, a panic, or the bytes of a frame and what it is.
pub data Parsed : Type 0 where
  incomplete panics : Parsed
  frame : ℕ → WsEvent → Parsed

-- Exclusive or with the mask, from its byte `i % 4` on.
abbrev pub masked_from : List ℕ → ℕ → List ℕ → List ℕ
masked_from mask i [] = []
masked_from mask i (b ∷ bytes) = bit_xor b (at mask (i % 4)) ∷ masked_from mask (suc i) bytes

abbrev pub from_be32 : ℕ → ℕ → ℕ → ℕ → ℕ
from_be32 a b c d = from_be16 a b * 2 ^ 16 + from_be16 c d

abbrev pub be64 : ℕ → List ℕ
be64 v = be32 (v / 2 ^ 32) ++ be32 v

-- `u64::from_be_bytes` of the eight bytes from `o` on.
abbrev pub from_be64 : List ℕ → ℕ → ℕ
from_be64 buf o =
    from_be32 (at buf o) (at buf (o + 1)) (at buf (o + 2)) (at buf (o + 3)) * 2 ^ 32
    + from_be32 (at buf (o + 4)) (at buf (o + 5)) (at buf (o + 6)) (at buf (o + 7))

abbrev pub event_of : ℕ → List ℕ → WsEvent
event_of opcode bytes =
    if opcode == 8
    then WsEvent.close
    else if opcode == 9 || opcode == 10
    then WsEvent.skip
    else WsEvent.payload bytes

-- Behind the mask. The sum wraps around, and a range that ends before it starts panics.
unfoldable pub parse_payload : ℕ → Bool → List ℕ → ℕ → ℕ → List ℕ → Parsed
parse_payload opcode masked mask len off buf =
    let end = (off + len) % 2 ^ 64 in
    let bytes = take (end - off) (drop off buf) in
    if ltb (length buf) end
    then Parsed.incomplete
    else if ltb end off
    then Parsed.panics
    else Parsed.frame end (event_of opcode (if masked then masked_from mask 0 bytes else bytes))

-- Behind the length.
unfoldable pub parse_mask : ℕ → Bool → ℕ → ℕ → List ℕ → Parsed
unfolding parse_payload
parse_mask opcode masked len off buf =
    if masked
    then (if ltb (length buf) (off + 4)
        then Parsed.incomplete
        else parse_payload opcode true (take 4 (drop off buf)) len (off + 4) buf)
    else parse_payload opcode false (replicate 4 0) len off buf

unfoldable pub parse_ws_frame : List ℕ → Parsed
unfolding parse_mask
parse_ws_frame buf =
    let opcode = at buf 0 % 16 in
    let len = at buf 1 % 128 in
    let masked = at buf 1 / 128 % 2 == 1 in
    if ltb (length buf) 2
    then Parsed.incomplete
    else if len == 126
    then (if ltb (length buf) 4
        then Parsed.incomplete
        else parse_mask opcode masked (from_be16 (at buf 2) (at buf 3)) 4 buf)
    else if len == 127
    then (if ltb (length buf) 10
        then Parsed.incomplete
        else parse_mask opcode masked (from_be64 buf 2) 10 buf)
    else parse_mask opcode masked len 2 buf

-- The second byte and the length behind it.
abbrev pub length_bytes : ℕ → List ℕ
length_bytes n =
    if ltb n 126
    then (128 + n) ∷ []
    else if leb n 65535
    then (128 + 126) ∷ be16 n
    else (128 + 127) ∷ be64 n

unfoldable pub encode_client_binary_frame : List ℕ → List ℕ → List ℕ
encode_client_binary_frame mask bytes =
    0x82 ∷ (length_bytes (length bytes) ++ (mask ++ masked_from mask 0 bytes))

abbrev pub max_empty_frames : ℕ
max_empty_frames = 64

-- `decoded` is what is behind `decoded_pos`.
pub record WsRead : Type 0 where
  pub rx : List ℕ
  pub decoded : List ℕ
  pub empty_frames : ℕ

-- A frame that is being written, behind `write_pos`, and the bytes it carries; and how many masks
-- were drawn.
pub data WsWrite : Type 0 where
  idle : ℕ → WsWrite
  writing : List ℕ → ℕ → ℕ → WsWrite

abbrev pub new_read : WsRead
new_read = record { rx = []; decoded = []; empty_frames = 0 }

abbrev pub new_write : WsWrite
new_write = WsWrite.idle 0

unfoldable pub hand_out : ℕ → WsRead → Next WsRead
hand_out room s =
    let n = min (length s.decoded) room in
    Next.stop (Poll.ready (take n s.decoded)) (record s { decoded = drop n s.decoded })

-- What a frame does, behind which `loop` goes on.
unfoldable pub on_event : (WsRead → Next WsRead) → ℕ → WsRead → WsEvent → Next WsRead
unfolding hand_out
on_event loop room s WsEvent.close = Next.stop (Poll.ready []) s
on_event loop room s WsEvent.skip = loop s
on_event loop room s (WsEvent.payload []) =
    let counted = record s { empty_frames = s.empty_frames + 1 } in
    let rest = loop counted in
    if ltb max_empty_frames (s.empty_frames + 1)
    then Next.stop (Poll.failed IoError.other) counted
    else rest
on_event loop room s (WsEvent.payload (b ∷ bytes)) =
    hand_out room (record s { empty_frames = 0; decoded = b ∷ bytes })

-- The loop over the frames in `rx`.
unfoldable pub drain : ℕ → ℕ → WsRead → Next WsRead
unfolding on_event parse_ws_frame
drain zero room s = Next.want 4096 s
drain (suc fuel) room s = elim (parse_ws_frame s.rx) [
  | Parsed.incomplete ↦ Next.want 4096 s
  | Parsed.panics ↦ Next.stop (Poll.failed IoError.panicked) s
  | Parsed.frame n event ↦
      on_event (λ t. drain fuel room t) room (record s { rx = drop n s.rx }) event
]

-- Every frame has two bytes or more, so that the loop has fewer rounds than `rx` has bytes.
unfoldable pub settle : ℕ → WsRead → Next WsRead
unfolding drain
settle room s = elim s.decoded [
  | [] ↦ drain (suc (length s.rx)) room s
  | ◌∷◌ b bytes ↦ hand_out room s
]

unfoldable pub feed : WsRead → List ℕ → Fed WsRead
feed s [] = Fed.done (Poll.ready []) s
feed s (g ∷ got) = Fed.again (record s { rx = s.rx ++ (g ∷ got) })

-- `poll_read` is `Io.poll` of this reader.
abbrev pub reader : Reader WsRead
reader = record { settle = settle; feed = feed }

module _ (mask_key : ℕ → List ℕ) where
  unfoldable pub offer : WsWrite → List ℕ → Offer WsWrite
  unfolding encode_client_binary_frame
  offer (WsWrite.idle c) [] = Offer.answer (Poll.ready 0) (WsWrite.idle c)
  offer (WsWrite.idle c) (b ∷ buf) =
      let whole = encode_client_binary_frame (mask_key c) (b ∷ buf) in
      Offer.put whole (WsWrite.writing whole (length (b ∷ buf)) (suc c))
  offer (WsWrite.writing left n c) buf = Offer.put left (WsWrite.writing left n c)

  unfoldable pub took : WsWrite → List ℕ → ℕ → Took WsWrite
  took (WsWrite.idle c) buf k = Took.more (WsWrite.idle c)
  took (WsWrite.writing left n c) buf k =
      if k == 0
      then Took.accept (Poll.failed IoError.write_zero) (WsWrite.writing left n c)
      else if leb (length left) k
      then Took.accept (Poll.ready n) (WsWrite.idle c)
      else Took.more (WsWrite.writing (drop k left) n c)

  -- `poll_write` is `poll_out` of this writer.
  abbrev pub writer : Writer WsWrite
  writer = record { offer = offer; took = took }

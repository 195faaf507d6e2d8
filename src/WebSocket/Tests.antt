-- ===== src/WebSocket/Tests.antt =====
-- crates/clash-proxynet/src/transport.rs: frames of each kind, and the end of the address space.
use rust_clash.Common.{
  ℕ, zero, suc, ◌+◌, ◌<◌, ◌≡◌, refl, List, [], ◌∷◌, ◌++◌, arith, length, All, replicate,
  length-replicate,
}
use rust_clash.Io.{Turn, reads}
use rust_clash.Io.Steps.{Gives}
use rust_clash.Io.Writer.{write_all}
use rust_clash.WebSocket.{
  WsEvent, Parsed, parse_ws_frame, encode_client_binary_frame, new_read, new_write, reader, writer,
  offer, took,
}
use rust_clash.WebSocket.Frame.{parse_ws_frame-encode_client_binary_frame}
use rust_clash.WebSocket.Tunnel.{reads_ws_wire}

abbrev mask : List ℕ
mask = 1 ∷ 2 ∷ 4 ∷ 8 ∷ []

parses_unmasked_binary_frame :
    parse_ws_frame (0x82 ∷ 5 ∷ 104 ∷ 101 ∷ 108 ∷ 108 ∷ 111 ∷ [])
    ≡ Parsed.frame 7 (WsEvent.payload (104 ∷ 101 ∷ 108 ∷ 108 ∷ 111 ∷ []))
unfolding parse_ws_frame
parses_unmasked_binary_frame = refl

incomplete_frame : parse_ws_frame (0x82 ∷ 5 ∷ 104 ∷ []) ≡ Parsed.incomplete
unfolding parse_ws_frame
incomplete_frame = refl

-- A length of 2 ^ 64 - 1: the end of the range wraps around.
longest_frame : parse_ws_frame (0x82 ∷ 127 ∷ replicate 8 255) ≡ Parsed.panics
unfolding parse_ws_frame
longest_frame = refl

calls_give : (n : ℕ) → All Gives (replicate n (Turn.gives 1))
calls_give zero = tt
calls_give (suc n) = (tt, calls_give n)

abbrev turns : List Turn
turns = replicate 60 (Turn.gives 1)

abbrev buf : List ℕ
buf = 9 ∷ 8 ∷ 7 ∷ []

length-wire : length (write_all (writer (λ c. mask)) new_write buf (replicate 3 turns)).1 ≡ 9
unfolding write_all offer took
length-wire = refl

reads_ws_wire_example :
    ((write_all (writer (λ c. mask)) new_write buf (replicate 3 turns)).2 ≡ [])
    × (reads reader
          (2 ∷ 2 ∷ 2 ∷ [])
          new_read
          (write_all (writer (λ c. mask)) new_write buf (replicate 3 turns)).1
          turns
        ≡ buf)
reads_ws_wire_example =
    let long = length-replicate 60 (Turn.gives 1) in
    let ample : All Gives turns × (14 + length buf < length turns) =
      (calls_give 60, omega (arith, long)) in
    reads_ws_wire (λ c. mask) (λ c. refl) buf (2 ∷ 2 ∷ 2 ∷ []) (replicate 3 turns) turns
      (omega arith) (omega arith) (ample, (ample, (ample, tt)))
      (omega arith, (omega arith, (omega arith, tt))) (omega arith) (calls_give 60)
      (omega (arith, long, length-wire))

parse_ws_frame-encode_client_binary_frame_example :
    parse_ws_frame (encode_client_binary_frame mask (replicate 200 77) ++ (0x82 ∷ []))
    ≡ Parsed.frame
        (length (encode_client_binary_frame mask (replicate 200 77)))
        (WsEvent.payload (replicate 200 77))
parse_ws_frame-encode_client_binary_frame_example =
    parse_ws_frame-encode_client_binary_frame mask (replicate 200 77) (0x82 ∷ []) refl
      (omega (arith, length-replicate {A = ℕ} 200 77))

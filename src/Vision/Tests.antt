-- ===== src/Vision/Tests.antt =====
-- crates/clash-proxynet/src/vision.rs: frames of each kind, and what is not a frame.
use rust_clash.Common.{
  ℕ, zero, suc, ◌<◌, length, ◌≡◌, refl, false, none, List, [], ◌∷◌, ◌++◌, arith, All, replicate,
  length-replicate,
}
use rust_clash.Io.{Next, Turn, reads}
use rust_clash.Io.Steps.{Gives}
use rust_clash.Vision.{
  Mode, decide_loop, read_framed, finish_framing, read_raw, new_read, reader, settle,
  read_frame_header,
}
use rust_clash.Vision.Frames.{Frames, Ending, wire_of, carried}
use rust_clash.Io.Writer.{write_all}
use rust_clash.Vision.Uplink.{new_write, writer, offer, took}
use rust_clash.Vision.Tunnel.{reads_vision_wire}
use rust_clash.Vision.Stream.{reads_framed_payload}

abbrev uuid : List ℕ
uuid = replicate 16 7

abbrev fs : Frames
fs = (104 ∷ 101 ∷ [], 0 ∷ 0 ∷ 0 ∷ []) ∷ (108 ∷ [], []) ∷ []

abbrev end : Ending
end = Ending.raw_end (108 ∷ []) (0 ∷ 0 ∷ []) (111 ∷ 33 ∷ [])

abbrev turns : List Turn
turns = replicate 60 (Turn.gives 1)

calls_give : (n : ℕ) → All Gives (replicate n (Turn.gives 1))
calls_give zero = tt
calls_give (suc n) = (tt, calls_give n)

carries_hello : carried fs end ≡ 104 ∷ 101 ∷ 108 ∷ 108 ∷ 111 ∷ 33 ∷ []
carries_hello = refl

-- A header whose frame is longer than the buffer.
too_long : (read_frame_header (record new_read { buffered = 0 ∷ 32 ∷ 0 ∷ 0 ∷ 0 ∷ [] })).0 ≡ false
unfolding read_frame_header
too_long = refl

reads_framed_payload_example :
    reads
      (reader uuid (λ leftover. none))
      (2 ∷ 2 ∷ 2 ∷ 2 ∷ 2 ∷ 2 ∷ [])
      new_read
      (uuid ++ wire_of fs end)
      turns
    ≡ carried fs end
reads_framed_payload_example =
    let long = length-replicate 60 (Turn.gives 1) in
    reads_framed_payload uuid (λ leftover. none) fs end (2 ∷ 2 ∷ 2 ∷ 2 ∷ 2 ∷ 2 ∷ []) turns refl
      ((omega arith, omega arith), ((omega arith, omega arith), tt)) (omega arith, omega arith)
      (omega arith)
      (omega arith, (omega arith, (omega arith, (omega arith, (omega arith, (omega arith, tt))))))
      (omega arith) (calls_give 60) (omega (arith, long))

-- A frame with the command DIRECT over a session that has no raw stream: the bytes behind it are
-- lost.
drops_leftover :
    settle uuid
      (λ leftover. none)
      9
      (record new_read { mode = Mode.framed; buffered = 5 ∷ 6 ∷ []; command = 2 })
    ≡ Next.want 9 (record new_read { mode = Mode.raw; start = 2; command = 2 })
unfolding settle decide_loop read_framed read_frame_header finish_framing read_raw
drops_leftover = refl

abbrev calls : List Turn
calls = replicate 8194 (Turn.gives 2000)

abbrev later : List Turn
later = replicate 2000 (Turn.gives 3)

later_give : (n k : ℕ) → All Gives (replicate n (Turn.gives (suc k)))
later_give zero k = tt
later_give (suc n) k = (tt, later_give n k)

-- The first byte is that of a TLS record of application data, so that one frame of END goes out.
abbrev record_bytes : List ℕ
record_bytes = 0x17 ∷ 3 ∷ 3 ∷ []

length-record_wire :
    length (write_all (writer (λ n bound. 0) uuid) new_write record_bytes (replicate 3 calls)).1
    ≡ 921
unfolding write_all offer took
length-record_wire = refl

reads_vision_wire_example :
    ((write_all (writer (λ n bound. 0) uuid) new_write record_bytes (replicate 3 calls)).2 ≡ [])
    × (reads
          (reader uuid (λ leftover. none))
          (2 ∷ 2 ∷ 2 ∷ [])
          new_read
          (write_all (writer (λ n bound. 0) uuid) new_write record_bytes (replicate 3 calls)).1
          later
        ≡ record_bytes)
reads_vision_wire_example =
    let one : Turn = Turn.gives 2000 in
    let two : Turn = Turn.gives 3 in
    let ample : All Gives calls × (8193 < length calls) =
      (later_give 8194 1999, omega (arith, length-replicate 8194 one)) in
    reads_vision_wire (λ n bound. 0) uuid refl (λ leftover. none) record_bytes (2 ∷ 2 ∷ 2 ∷ [])
      (replicate 3 calls) later (omega arith) (omega arith) (ample, (ample, (ample, tt)))
      (omega arith, (omega arith, (omega arith, tt))) (omega arith) (later_give 2000 2)
      (omega (arith, length-record_wire, length-replicate 2000 two))

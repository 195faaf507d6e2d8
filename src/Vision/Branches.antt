-- ===== src/Vision/Branches.antt =====
-- crates/clash-proxynet/src/vision.rs: the branches of the loop of poll_read, by what the state
-- says.
use rust_clash.Common.{
  ℕ, ◌+◌, ◌-◌, ◌<◌, ◌≤◌, ◌≡◌, refl, ◌∙◌, ap, true, false, ◌&&◌, ◌||◌, Option, none, some, List, [],
  ◌∷◌, ◌++◌, arith, length, take, drop, at, ltb, ◌==◌, from_be16, from_be16-be16, list_beq, nat_eq,
  beq_refl, list_eq,
}
use mathlib.Core.List.{append_assoc}
use Prim.Native.Nat.{min}
use rust_clash.Io.{Poll, Next}
use rust_clash.Vision.{
  VisionRead, Mode, cmd_continue, cmd_end, max_frame, consume, fill_from_session, try_decide,
  read_frame_header, finish_framing, read_framed,
}
use rust_clash.Vision.Frames.{frame_of, IsFrame}
use rust_clash.Vision.Due.{state}

-- The header of a frame that fits, in front of the buffer.
pub header_lem :
    (start : ℕ) (buffered : List ℕ) (c e : ℕ) (bytes : List ℕ) (command : ℕ)
    (content padding more : List ℕ)
    → 5 ≤ length buffered
    → IsFrame (content, padding)
    → buffered ++ bytes ≡ frame_of command content padding ++ more
    → (read_frame_header (state Mode.framed start buffered c 0 0 e) ≡ (
      true,
      state Mode.framed (start + 5) (drop 5 buffered) command (length content) (length padding) 0,
    ))
      × (drop 5 buffered ++ bytes ≡ content ++ (padding ++ more))
unfolding read_frame_header
header_lem start [] c e bytes command content padding more h f eq = absurd (omega arith)
header_lem start (b0 ∷ []) c e bytes command content padding more h f eq = absurd (omega arith)
header_lem start (b0 ∷ b1 ∷ []) c e bytes command content padding more h f eq = absurd (omega arith)
header_lem start (b0 ∷ b1 ∷ b2 ∷ []) c e bytes command content padding more h f eq =
    absurd (omega arith)
header_lem start (b0 ∷ b1 ∷ b2 ∷ b3 ∷ []) c e bytes command content padding more h f eq =
    absurd (omega arith)
header_lem start (b0 ∷ b1 ∷ b2 ∷ b3 ∷ b4 ∷ buffered) c e bytes command content padding more h f eq =
    let byte : (i : ℕ)
        → at (b0 ∷ b1 ∷ b2 ∷ b3 ∷ b4 ∷ (buffered ++ bytes)) i
          ≡ at (frame_of command content padding ++ more) i =
      λ i. ap (λ l. at l i) eq in
    let e0 : b0 ≡ command = byte 0 in
    let e12 : from_be16 b1 b2 ≡ length content =
      omega (arith, byte 1, byte 2, f, from_be16-be16 (length content) (omega (arith, f))) in
    let e34 : from_be16 b3 b4 ≡ length padding =
      omega (arith, byte 3, byte 4, f, from_be16-be16 (length padding) (omega (arith, f))) in
    let fits : ltb max_frame (length content + length padding + 5) ≡ false = ground (arith, f) in
    let full : ltb 0 (length content) ≡ true = ground (arith, f) in
    (rw (e0, e12, e34, fits, full) refl, ap (drop 5) eq ∙ append_assoc content padding more)

list_beq_self : (l : List ℕ) → list_beq l l ≡ true
list_beq_self l = beq_refl l

module _ (uuid : List ℕ) where
  pub try_decide-none :
      (s : VisionRead)
      → take (min (length s.buffered) 16) s.buffered ≡ take (min (length s.buffered) 16) uuid
      → length s.buffered < 21
      → try_decide uuid s ≡ none
  unfolding try_decide
  try_decide-none s same few =
      let short : ltb (length s.buffered) 21 ≡ true = ground arith in
      rw (same, list_beq_self, short) (ground arith)

  pub try_decide-some :
      (s : VisionRead)
      → take (min (length s.buffered) 16) s.buffered ≡ take (min (length s.buffered) 16) uuid
      → 21 ≤ length s.buffered
      → try_decide uuid s ≡ some (record (consume 16 s) { mode = Mode.framed })
  unfolding try_decide
  try_decide-some s same many =
      let long : ltb (length s.buffered) 21 ≡ false = ground arith in
      rw (same, list_beq_self, long) (ground arith)

module _ (uuid : List ℕ) (detach : List ℕ → Option (List ℕ)) where
  -- The branches of the loop, by what the state says.
  module _ (loop : VisionRead → Next VisionRead) (room : ℕ) (s : VisionRead) where
    pub framed_content :
        0 < s.remaining_content
        → 0 < length s.buffered
        → (let n = min (min s.remaining_content (length s.buffered)) room in
            read_framed uuid detach loop room s
            ≡ Next.stop
                (Poll.ready (take n s.buffered))
                (record (consume n s) { remaining_content = s.remaining_content - n }))
    unfolding read_framed
    framed_content h k =
        let left : (s.remaining_content == 0) ≡ false = ground arith in
        let some_in : (length s.buffered == 0) ≡ false = ground arith in
        let wanted : ltb 0 s.remaining_content ≡ true = ground arith in
        rw (left, some_in, wanted) refl

    pub framed_empty :
        0 < s.remaining_content + s.remaining_padding
        → length s.buffered ≡ 0
        → read_framed uuid detach loop room s ≡ fill_from_session s
    unfolding read_framed
    framed_empty h k =
        let left : (s.remaining_content == 0 && s.remaining_padding == 0) ≡ false = ground arith in
        let none_in : (length s.buffered == 0) ≡ true = ground arith in rw (left, none_in) refl

    pub framed_skip :
        s.remaining_content ≡ 0
        → 0 < s.remaining_padding
        → 0 < length s.buffered
        → (let skip = min s.remaining_padding (length s.buffered) in
            read_framed uuid detach loop room s
            ≡ loop (record (consume skip s) { remaining_padding = s.remaining_padding - skip }))
    unfolding read_framed
    framed_skip h k l =
        let left : (s.remaining_content == 0 && s.remaining_padding == 0) ≡ false = ground arith in
        let some_in : (length s.buffered == 0) ≡ false = ground arith in
        let none_wanted : ltb 0 s.remaining_content ≡ false = ground arith in
        rw (left, some_in, none_wanted) refl

    pub framed_end :
        s.remaining_content ≡ 0
        → s.remaining_padding ≡ 0
        → s.command ≡ cmd_end
        → read_framed uuid detach loop room s ≡ loop (finish_framing uuid detach s)
    unfolding read_framed
    framed_end h k c =
        let over : (s.remaining_content == 0 && s.remaining_padding == 0) ≡ true = ground arith in
        let last : (s.command == 1 || s.command == 2) ≡ true = ground arith in rw (over, last) refl

    pub framed_short :
        s.remaining_content ≡ 0
        → s.remaining_padding ≡ 0
        → s.command ≡ cmd_continue
        → length s.buffered < 5
        → read_framed uuid detach loop room s ≡ fill_from_session s
    unfolding read_framed
    framed_short h k c few =
        let over : (s.remaining_content == 0 && s.remaining_padding == 0) ≡ true = ground arith in
        let more : (s.command == 1 || s.command == 2) ≡ false = ground arith in
        let short : ltb (length s.buffered) 5 ≡ true = ground arith in rw (over, more, short) refl

    pub framed_header :
        s.remaining_content ≡ 0
        → s.remaining_padding ≡ 0
        → s.command ≡ cmd_continue
        → 5 ≤ length s.buffered
        → (read_frame_header s).0 ≡ true
        → read_framed uuid detach loop room s ≡ loop (read_frame_header s).1
    unfolding read_framed
    framed_header h k c many ok =
        let over : (s.remaining_content == 0 && s.remaining_padding == 0) ≡ true = ground arith in
        let more : (s.command == 1 || s.command == 2) ≡ false = ground arith in
        let enough : ltb (length s.buffered) 5 ≡ false = ground arith in
        rw (over, more, enough, ok) refl

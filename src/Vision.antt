-- ===== src/Vision.antt =====
-- crates/clash-proxynet/src/vision.rs: the frames that VLESS with xtls-rprx-vision puts around the
-- first bytes in both directions. The states of reading and writing share no field. `buffered` is
-- `buffer[start..end]`, of a buffer of 8192 bytes. `uuid` is the user's identifier, and `detach` is
-- what the session's vision_detach answers: the bytes that the raw stream gives in front of those
-- that arrive. The session and the raw stream are one inner stream.
pub mod Frames
pub mod Due
pub mod Branches
pub mod Handed
pub mod Framed
pub mod Read
pub mod Stream
mod Fuel
pub mod Uplink
pub mod Sent
pub mod Staged
pub mod Account
pub mod Write
pub mod Tunnel
pub mod Tests
use rust_clash.Common.{
  ℕ, zero, suc, ◌+◌, ◌-◌, ◌*◌, ◌/◌, ◌%◌, ◌^◌, Bool, true, false, not, ◌&&◌, ◌||◌, Option, none,
  some, List, [], ◌∷◌, ◌++◌, ltb, leb, ◌==◌, if◌then◌else◌, length, take, drop, at, replicate, be16,
  from_be16, list_beq, nat_eq,
}
use Prim.Native.Nat.{min}
use rust_clash.Text.{is_empty}
use rust_clash.Io.{IoError, Poll, Next, Fed, Reader}

pub data Mode : Type 0 where
  undecided framed raw : Mode

-- The commands, and the sizes.
abbrev pub cmd_continue : ℕ
cmd_continue = 0

abbrev pub cmd_end : ℕ
cmd_end = 1

abbrev pub cmd_direct : ℕ
cmd_direct = 2

abbrev pub max_frame : ℕ
max_frame = 8192

abbrev pub max_padding_only : ℕ
max_padding_only = 64

pub record VisionRead : Type 0 where
  pub mode : Mode
  pub start : ℕ
  pub buffered : List ℕ
  pub command : ℕ
  pub remaining_content : ℕ
  pub remaining_padding : ℕ
  pub padding_only : ℕ
  pub spliced : Option (List ℕ)

abbrev pub new_read : VisionRead
new_read = record {
  mode = Mode.undecided;
  start = 0;
  buffered = [];
  command = 0;
  remaining_content = 0;
  remaining_padding = 0;
  padding_only = 0;
  spliced = none;
}

-- `self.start += n`.
abbrev pub consume : ℕ → VisionRead → VisionRead
consume n s = record s { start = s.start + n; buffered = drop n s.buffered }

unfoldable pub compact : ℕ → VisionRead → VisionRead
unfolding is_empty
compact need s =
    if is_empty s.buffered
    then record s { start = 0 }
    else if leb (s.start + length s.buffered + need) max_frame
    then s
    else record s { start = 0 }

-- `fill_from_session`, up to its read. It is called with fewer than 21 bytes, so that there is
-- room.
unfoldable pub fill_from_session : VisionRead → Next VisionRead
unfolding compact
fill_from_session s =
    let t = compact 1 s in Next.want (min 2048 (max_frame - (t.start + length t.buffered))) t

-- The answer `true` is the state that was decided.
unfoldable pub try_decide : List ℕ → VisionRead → Option VisionRead
try_decide uuid s =
    let compared = min (length s.buffered) 16 in
    if ltb 0 compared && not (list_beq (take compared s.buffered) (take compared uuid))
    then some (record s { mode = Mode.raw })
    else if ltb (length s.buffered) 21
    then none
    else some (record (consume 16 s) { mode = Mode.framed })

-- The answer says whether the frame is accepted.
unfoldable pub read_frame_header : VisionRead → Bool × VisionRead
read_frame_header s =
    let content = from_be16 (at s.buffered 1) (at s.buffered 2) in
    let padding = from_be16 (at s.buffered 3) (at s.buffered 4) in
    let read = record s {
      command = at s.buffered 0;
      remaining_content = content;
      remaining_padding = padding;
    } in
    if ltb max_frame (content + padding + 5)
    then (false, read)
    else if ltb 0 content
    then (true, record (consume 5 read) { padding_only = 0 })
    else (
      leb (s.padding_only + 1) max_padding_only,
      record (consume 5 read) { padding_only = s.padding_only + 1 },
    )

-- `buf.put_slice` of what is in front, with the room in the caller's buffer.
unfoldable pub read_raw : ℕ → VisionRead → Next VisionRead
read_raw room s = elim s.buffered [
  | ◌∷◌ b bytes ↦
      let n = min (length (b ∷ bytes)) room in
      Next.stop (Poll.ready (take n (b ∷ bytes))) (consume n s)
  | [] ↦ elim s.spliced [
    | none ↦ Next.want room s
    | some [] ↦ Next.want room s
    | some (◌∷◌ b front) ↦
        Next.stop (Poll.ready (take room (b ∷ front)))
          (record s { spliced = some (drop room (b ∷ front)) })
  ]
]

unfoldable pub feed : VisionRead → List ℕ → Fed VisionRead
feed s got =
    let filled = record s { buffered = s.buffered ++ got } in
    let nothing : Fed VisionRead = elim s.mode [
      | Mode.raw ↦ Fed.done (Poll.ready []) s
      | Mode.undecided ↦ Fed.again (record s { mode = Mode.raw })
      | Mode.framed ↦
          if s.remaining_content == 0 && s.remaining_padding == 0 && is_empty s.buffered
          then Fed.done (Poll.ready []) s
          else Fed.done (Poll.failed IoError.unexpected_eof) s
    ] in
    let something : Fed VisionRead = elim s.mode [
      | Mode.raw ↦ Fed.done (Poll.ready got) s
      | Mode.undecided ↦ Fed.again filled
      | Mode.framed ↦ Fed.again filled
    ] in
    elim got [ [] ↦ nothing | ◌∷◌ b bytes ↦ something ]

module _ (uuid : List ℕ) (detach : List ℕ → Option (List ℕ)) where
  unfoldable pub finish_framing : VisionRead → VisionRead
  finish_framing s =
      if s.command == cmd_direct
      then elim (detach s.buffered) [
        | none ↦ record (consume (length s.buffered) s) { mode = Mode.raw }
        | some front ↦ record (consume (length s.buffered) s) {
          mode = Mode.raw;
          spliced = some front;
        }
      ]
      else record s { mode = Mode.raw }

  -- The branch for `Mode::Framed`, behind which `loop` goes on.
  unfoldable pub read_framed : (VisionRead → Next VisionRead) → ℕ → VisionRead → Next VisionRead
  unfolding finish_framing read_frame_header fill_from_session
  read_framed loop room s =
      let (accepted, t) = read_frame_header s in
      let finished = loop (finish_framing s) in
      let next = loop t in
      let skip = min s.remaining_padding (length s.buffered) in
      let skipped =
        loop (record (consume skip s) { remaining_padding = s.remaining_padding - skip }) in
      let n = min (min s.remaining_content (length s.buffered)) room in
      if s.remaining_content == 0 && s.remaining_padding == 0
      then (if s.command == cmd_end || s.command == cmd_direct
          then finished
          else if ltb (length s.buffered) 5
          then fill_from_session s
          else if accepted
          then next
          else Next.stop (Poll.failed IoError.other) t)
      else if length s.buffered == 0
      then fill_from_session s
      else if ltb 0 s.remaining_content
      then Next.stop (Poll.ready (take n s.buffered))
          (record (consume n s) { remaining_content = s.remaining_content - n })
      else skipped

  -- The loop, for a number of rounds.
  unfoldable pub decide_loop : ℕ → ℕ → VisionRead → Next VisionRead
  unfolding try_decide read_framed read_raw
  decide_loop zero room s = Next.want 2048 s
  decide_loop (suc fuel) room s = elim s.mode [
    | Mode.raw ↦ read_raw room s
    | Mode.undecided ↦ elim (try_decide uuid s) [
      | none ↦ fill_from_session s
      | some t ↦ decide_loop fuel room t
    ]
    | Mode.framed ↦ read_framed (λ t. decide_loop fuel room t) room s
  ]

  -- A round takes bytes out of the buffer or changes the mode for a later one.
  unfoldable pub settle : ℕ → VisionRead → Next VisionRead
  unfolding decide_loop
  settle room s = decide_loop (length s.buffered + 3) room s

  -- `poll_read` is `Io.poll` of this reader.
  abbrev pub reader : Reader VisionRead
  reader = record { settle = settle; feed = feed }

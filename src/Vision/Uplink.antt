-- ===== src/Vision/Uplink.antt =====
-- crates/clash-proxynet/src/vision.rs: poll_write, which stages the caller's bytes as frames, of
-- which the first comes behind the user's identifier, until a frame begins like a TLS record of
-- application data. `left` is `write_buf[write_off..]`, and `draw n bound` what the n-th call of
-- gen_range(0..bound) draws. poll_flush and poll_shutdown are not part of it.
use rust_clash.Common.{
  ℕ, suc, ◌+◌, ◌-◌, Bool, true, false, not, ◌&&◌, ◌||◌, Option, none, some, List, [], ◌∷◌, ◌++◌,
  ltb, leb, ◌==◌, if◌then◌else◌, length, take, drop, at, replicate, be16,
}
use Prim.Native.Nat.{min}
use rust_clash.Text.{is_empty}
use rust_clash.Io.{IoError, Poll}
use rust_clash.Io.Writer.{Offer, Took, Writer}
use rust_clash.Vision.{max_frame, cmd_continue, cmd_end}

pub record VisionWrite : Type 0 where
  pub uuid_sent : Bool
  pub uplink_raw : Bool
  pub left : List ℕ
  pub write_plain : ℕ
  pub pending_end : Bool
  pub drawn : ℕ

abbrev pub new_write : VisionWrite
new_write = record {
  uuid_sent = false;
  uplink_raw = false;
  left = [];
  write_plain = 0;
  pending_end = false;
  drawn = 0;
}

abbrev pub tls_app : ℕ
tls_app = 0x17

abbrev pub uuid_over : VisionWrite → ℕ
uuid_over s = if s.uuid_sent then 0 else 16

unfoldable pub padding_len : (ℕ → ℕ → ℕ) → ℕ → ℕ → ℕ → ℕ
padding_len draw n content over =
    let padding = if ltb content 900 then draw n 500 + 900 - content else draw n 256 in
    min padding (max_frame - over - 5 - content)

unfoldable pub max_content : ℕ → ℕ
max_content over =
    let most = max_frame - (5 + over + 900) in if ltb most 1 then max_frame - 5 - over - 1 else most

module _ (draw : ℕ → ℕ → ℕ) (uuid : List ℕ) where
  unfoldable pub pad_frame : VisionWrite → List ℕ → ℕ → Option (List ℕ)
  unfolding padding_len
  pad_frame s content command =
      let over = uuid_over s in
      let padding = padding_len draw s.drawn (length content) over in
      if ltb (max_frame - (5 + over)) (length content)
      then none
      else some (
          (if s.uuid_sent then [] else uuid)
          ++ (command
              ∷ (be16 (length content) ++ (be16 padding ++ (content ++ replicate padding 0)))))

  unfoldable pub stage_uplink : VisionWrite → List ℕ → VisionWrite
  unfolding pad_frame max_content is_empty
  stage_uplink s buf =
      let chunk = take (max_content (uuid_over s)) buf in
      let command =
        if not (is_empty chunk) && at chunk 0 == tls_app then cmd_end else cmd_continue in
      elim (pad_frame s chunk command) [
        | none ↦ record s { uplink_raw = true }
        | some frame ↦ record s {
          left = frame;
          write_plain = length chunk;
          pending_end = command == cmd_end;
          drawn = suc s.drawn;
        }
      ]

  unfoldable pub finish_uplink_frame : VisionWrite → VisionWrite
  finish_uplink_frame s = record {
    uuid_sent = true;
    uplink_raw = s.uplink_raw || s.pending_end;
    left = [];
    write_plain = 0;
    pending_end = false;
    drawn = s.drawn;
  }

  unfoldable pub offer : VisionWrite → List ℕ → Offer VisionWrite
  unfolding stage_uplink is_empty
  offer s buf =
      let staged = stage_uplink s buf in
      if not (is_empty s.left)
      then Offer.put s.left s
      else if is_empty buf
      then Offer.answer (Poll.ready 0) s
      else if s.uplink_raw
      then Offer.put buf s
      else if staged.uplink_raw
      then Offer.put buf staged
      else Offer.put staged.left staged

  unfoldable pub took : VisionWrite → List ℕ → ℕ → Took VisionWrite
  unfolding finish_uplink_frame is_empty
  took s buf n =
      if is_empty s.left
      then Took.accept (Poll.ready n) s
      else if n == 0
      then Took.accept (Poll.failed IoError.write_zero) s
      else if leb (length s.left) n
      then Took.accept (Poll.ready s.write_plain) (finish_uplink_frame s)
      else Took.more (record s { left = drop n s.left })

  -- `poll_write` is `poll_out` of this writer.
  abbrev pub writer : Writer VisionWrite
  writer = record { offer = offer; took = took }

-- ===== src/WebSocket/Tunnel.antt =====
-- crates/clash-proxynet/src/transport.rs: what one stream writes, another one reads.
use rust_clash.Common.{ℕ, ◌+◌, ◌^◌, ◌<◌, ◌≤◌, ◌≡◌, refl, ◌∙◌, ap, List, [], ◌∷◌, arith, length, All}
use mathlib.Core.List.{append-nil}
use rust_clash.Io.{Turn, reads}
use rust_clash.Io.Steps.{Gives}
use rust_clash.Io.Reads.{reads_whole}
use rust_clash.Io.Writer.{write_all}
use rust_clash.Io.Writer.Law.{write_all_keeps, write_all_whole, Accounts}
use rust_clash.WebSocket.{WsWrite, new_read, new_write, reader, writer}
use rust_clash.WebSocket.Read.{Frames, wire_of, carried, IsFrame, Due, reader-IsLawful}
use rust_clash.WebSocket.Write.{Account, cost, writer-IsHonest, length-encode_le}

module _ (mask_key : ℕ → List ℕ) (four : (c : ℕ) → length (mask_key c) ≡ 4) where
  -- When nothing is left, the wire is frames that carry the buffer.
  finished :
      (buf : List ℕ) (r : WsWrite × List ℕ × List ℕ)
      → r.2 ≡ []
      → Accounts
          (Account mask_key four)
          (cost mask_key four)
          (writer mask_key)
          (writer-IsHonest mask_key four)
          []
          buf
          r
      → (fs : Frames) × All IsFrame fs × (r.1 ≡ wire_of fs) × (buf ≡ carried fs)
  finished buf (state, wire, b ∷ left) none_left h = absurd (omega (arith, ap length none_left))
  finished buf (WsWrite.idle c, wire, []) none_left (taken, (small, (fs, all, o, t)), e) =
      (fs, all, o, e ∙ append-nil taken ∙ t)
  finished buf (WsWrite.writing left n c, wire, []) none_left (taken, a, e) =
      absurd (omega (arith, a.4))

  cheap :
      (state : WsWrite) (out taken rest : List ℕ)
      → Account mask_key four state out taken rest
      → cost mask_key four state rest ≤ 14 + length rest
  unfolding cost
  cheap (WsWrite.idle c) out taken rest a = length-encode_le (mask_key c) rest (four c)
  cheap (WsWrite.writing left n c) out taken rest a = omega (arith, a.2, a.3)

  -- WebSocket streams over one another. With masks of four bytes, a new stream writes a buffer of
  -- fewer than 2 ^ 63 bytes, with turns that let bytes through, for each call more than the buffer
  -- has bytes and 14, and as many calls as bytes. Then nothing of the buffer is left, and another new
  -- stream reads exactly the buffer of what went out, when it arrives, in whatever pieces, and there
  -- are as many calls as bytes, each with room in its buffer.
  pub reads_ws_wire :
      (buf rooms : List ℕ) (supply : List (List Turn)) (turns : List Turn)
      → length buf < 2 ^ 63
      → length buf ≤ length supply
      → All (λ t. All Gives t × (14 + length buf < length t)) supply
      → All (λ room. 0 < room) rooms
      → length buf ≤ length rooms
      → All Gives turns
      → length (write_all (writer mask_key) new_write buf supply).1 + length rooms ≤ length turns
      → ((write_all (writer mask_key) new_write buf supply).2 ≡ [])
        × (reads reader rooms new_read (write_all (writer mask_key) new_write buf supply).1 turns
            ≡ buf)
  reads_ws_wire buf rooms supply turns small n g room few give t =
      let honest = writer-IsHonest mask_key four in
      let out = write_all (writer mask_key) new_write buf supply in
      let start : Account mask_key four new_write [] [] buf = (small, ([], tt, refl, refl)) in
      let left : out.2 ≡ [] =
        write_all_whole (Account mask_key four) (cost mask_key four) (writer mask_key) honest
          (14 + length buf) new_write [] [] buf supply
          (λ t o b l a less. omega (arith, cheap t o b l a, less)) g start n in
      let (fs, all, e, cut) = finished buf out left (
        write_all_keeps (Account mask_key four) (cost mask_key four) (writer mask_key) honest
          new_write [] [] buf supply start) in
      (
        left,
        reads_whole Due reader reader-IsLawful rooms new_read out.1 buf turns room (fs, all, e, cut)
            give few t,
      )

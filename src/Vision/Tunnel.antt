-- ===== src/Vision/Tunnel.antt =====
-- crates/clash-proxynet/src/vision.rs: what one stream writes, a stream of the same user reads.
use rust_clash.Common.{
  ℕ, zero, suc, ◌+◌, ◌<◌, ◌≤◌, ◌≡◌, refl, sym, ◌∙◌, ap, Bool, true, false, Option, List, [], ◌∷◌,
  ◌++◌, arith, length, length-append, All,
}
use mathlib.Core.Path.{subst}
use mathlib.Core.List.{append-nil}
use rust_clash.Io.{Turn, reads}
use rust_clash.Io.Steps.{Gives}
use rust_clash.Io.Writer.{write_all}
use rust_clash.Io.Writer.Law.{write_all_keeps, write_all_whole, Accounts}
use rust_clash.Vision.{cmd_end, new_read, reader}
use rust_clash.Vision.Frames.{frame_of, Frames, Ending, wire_of, carried, IsFrame, IsEnding}
use rust_clash.Vision.Sent.{wire_raw, carried_raw, Sending}
use rust_clash.Vision.Stream.{reads_framed_payload}
use rust_clash.Vision.Uplink.{VisionWrite, new_write, writer}
use rust_clash.Vision.Account.{Account, cost, state}
use rust_clash.Vision.Write.{writer-IsHonest}

-- What a buffer is on the wire.
abbrev Carries : List ℕ → List ℕ → List ℕ → Type 0
Carries uuid wire buf =
    (fs : Frames) × (end : Ending) × All IsFrame fs
    × IsEnding end
    × (0 < length (wire_of fs end))
    × (wire ≡ uuid ++ wire_of fs end)
    × (buf ≡ carried fs end)

-- When nothing of the buffer is left, the wire carries it.
sent-Carries :
    (uuid : List ℕ) (started free : Bool) (left : List ℕ) (plain : ℕ) (last : Bool)
    (wire buf : List ℕ)
    → 0 < length buf
    → Sending uuid started free left plain last wire buf []
    → Carries uuid wire buf
sent-Carries uuid started true [] plain last wire buf pos
      (fs, content, padding, more, all, ok, o, t) =
    (
      fs,
      Ending.raw_end content padding more,
      all,
      ok,
      omega (
        arith,
        ap length (wire_raw fs content padding more),
        length-append (wire_of fs Ending.open_end) (frame_of cmd_end content padding ++ more),
      ),
      o ∙ ap (λ w. uuid ++ w) (sym (wire_raw fs content padding more)),
      t ∙ sym (carried_raw fs content padding more),
    )
sent-Carries uuid true false [] plain last wire buf pos (fs, all, some_wire, o, t) =
    (fs, Ending.open_end, all, tt, some_wire, o, t)
sent-Carries uuid false false [] plain last wire buf pos (o, t) =
    absurd (omega (arith, ap length t))
sent-Carries uuid started free (b ∷ left) zero last wire buf pos
      (fs, padding, all, f, ok, some_in, bound, e, t) =
    absurd (omega (arith, ok.0))
sent-Carries uuid started free (b ∷ left) (suc plain) last wire buf pos
      (fs, padding, all, f, ok, some_in, bound, e, t) =
    absurd (omega (arith, some_in))

module _ (draw : ℕ → ℕ → ℕ) (uuid : List ℕ) (sixteen : length uuid ≡ 16) where
  finished :
      (buf : List ℕ) (r : VisionWrite × List ℕ × List ℕ)
      → 0 < length buf
      → r.2 ≡ []
      → Accounts
          (Account uuid)
          (cost)
          (writer draw uuid)
          (writer-IsHonest draw uuid sixteen)
          []
          buf
          r
      → Carries uuid r.1 buf
  finished buf (last, wire, b ∷ left) pos none_left h = absurd (omega (arith, ap length none_left))
  finished buf (last, wire, []) pos none_left (taken, a, e) =
      let same : buf ≡ taken = e ∙ append-nil taken in
      subst (λ b. Carries uuid wire b) (sym same)
        (sent-Carries uuid last.uuid_sent last.uplink_raw last.left last.write_plain
          last.pending_end wire taken (omega (arith, ap length same, pos)) a)

  cheap :
      (started free : Bool) (left : List ℕ) (plain : ℕ) (last : Bool) (drawn : ℕ)
      (out taken rest : List ℕ)
      → Account uuid (state started free left plain last drawn) out taken rest
      → cost (state started free left plain last drawn) rest ≤ 8193
  unfolding cost
  cheap started free [] plain last drawn out taken rest a = omega arith
  cheap started free (b ∷ left) plain last drawn out taken rest
        (fs, padding, all, f, ok, some_in, bound, e, t) =
      omega (arith, bound)

  -- A new stream of a user with an identifier of 16 bytes writes a buffer that is not empty, with
  -- turns that let bytes through, more than 8193 of them for each call, and as many calls as
  -- bytes. Then nothing of the buffer is left, whatever paddings are drawn, and a new stream of
  -- the same user reads exactly the buffer of what went out, when it arrives, in whatever pieces,
  -- and there are as many calls as bytes, each with room in its buffer.
  pub reads_vision_wire :
      (detach : List ℕ → Option (List ℕ)) (buf rooms : List ℕ) (supply : List (List Turn))
      (turns : List Turn)
      → 0 < length buf
      → length buf ≤ length supply
      → All (λ t. All Gives t × (8193 < length t)) supply
      → All (λ room. 0 < room) rooms
      → length buf ≤ length rooms
      → All Gives turns
      → length (write_all (writer draw uuid) new_write buf supply).1 + length rooms ≤ length turns
      → ((write_all (writer draw uuid) new_write buf supply).2 ≡ [])
        × (reads
              (reader uuid detach)
              rooms
              new_read
              (write_all (writer draw uuid) new_write buf supply).1
              turns
            ≡ buf)
  reads_vision_wire detach buf rooms supply turns pos n g room few give t =
      let honest = writer-IsHonest draw uuid sixteen in
      let account = Account uuid in
      let price = cost in
      let out = write_all (writer draw uuid) new_write buf supply in
      let start : account new_write [] [] buf = (refl, refl) in
      let left : out.2 ≡ [] =
        write_all_whole account price (writer draw uuid) honest 8193 new_write [] [] buf supply
          (λ s o b l a less. omega (
            arith,
            cheap s.uuid_sent s.uplink_raw s.left s.write_plain s.pending_end s.drawn o b l a,
            less,
          ))
          g start n in
      let (fs, end, all, ok, some_wire, wire, cut) = finished buf out pos left (
        write_all_keeps account price (writer draw uuid) honest new_write [] [] buf supply start) in
      let back =
        reads_framed_payload uuid detach fs end rooms turns sixteen all ok some_wire room
          (subst (λ b. length b ≤ length rooms) cut few) give
          (subst (λ w. length w + length rooms ≤ length turns) wire t) in
      (left, ap (λ w. reads (reader uuid detach) rooms new_read w turns) wire ∙ back ∙ sym cut)

-- ===== src/Vision/Account.antt =====
-- crates/clash-proxynet/src/vision.rs: the account of what the writer sent, in each state.
use rust_clash.Common.{
  ℕ, suc, ◌<◌, ◌≤◌, ◌≡◌, refl, sym, ◌∙◌, ap, Bool, true, false, List, [], ◌∷◌, ◌++◌, arith, length,
  length-append, All, take, if◌then◌else◌,
}
use mathlib.Core.List.{append-nil}
use rust_clash.Text.{is_empty}
use rust_clash.Vision.{cmd_end, cmd_continue, max_frame}
use rust_clash.Vision.Frames.{Frames, Ending, frame_of, wire_of, carried, IsFrame}
use rust_clash.Vision.Uplink.{VisionWrite}
use rust_clash.Vision.Sent.{wire_open, carried_open, snoc_All, command_of, Sending}

abbrev pub state : Bool → Bool → List ℕ → ℕ → Bool → ℕ → VisionWrite
state started free left plain last drawn = record {
  uuid_sent = started;
  uplink_raw = free;
  left = left;
  write_plain = plain;
  pending_end = last;
  drawn = drawn;
}

unfoldable pub cost : VisionWrite → List ℕ → ℕ
unfolding is_empty
cost s rest = if is_empty s.left then suc max_frame else length s.left

module _ (uuid : List ℕ) where
  abbrev pub Account : VisionWrite → List ℕ → List ℕ → List ℕ → Type 0
  Account s out taken rest =
      Sending uuid s.uuid_sent s.uplink_raw s.left s.write_plain s.pending_end out taken rest

  -- A whole frame is sent.
  pub finished_Account :
      (last : Bool) (fs : Frames) (out left padding content taken : List ℕ)
      → All IsFrame fs
      → IsFrame (content, padding)
      → out ++ left
        ≡ uuid ++ (wire_of fs Ending.open_end ++ frame_of (command_of last) content padding)
      → taken ≡ carried fs Ending.open_end
      → (drawn : ℕ) (after : List ℕ)
      → Account (state true last [] 0 false drawn) (out ++ left) (taken ++ content) after
  finished_Account true fs out left padding content taken all ok e t drawn after = (
    fs,
    content,
    padding,
    [],
    all,
    ok,
    e
        ∙ ap (λ w. uuid ++ (wire_of fs Ending.open_end ++ w))
            (sym (append-nil (frame_of cmd_end content padding))),
    rw (t, append-nil content) refl,
  )
  finished_Account false fs out left padding content taken all ok e t drawn after = (
    fs ++ ((content, padding) ∷ []),
    snoc_All fs (content, padding) all ok,
    omega (
      arith,
      ap length (wire_open fs content padding),
      length-append (wire_of fs Ending.open_end) (frame_of cmd_continue content padding),
    ),
    e ∙ ap (λ w. uuid ++ w) (sym (wire_open fs content padding)),
    ap (λ w. w ++ content) t ∙ sym (carried_open fs content padding),
  )

  -- A frame of which bytes are left to send.
  pub pending_Account :
      (started : Bool) (left : List ℕ) (plain : ℕ) (last : Bool) (drawn : ℕ)
      (out taken rest : List ℕ) (fs : Frames) (padding : List ℕ)
      → 0 < length left
      → All IsFrame fs
      → IsFrame (take plain rest, padding)
      → plain ≤ length rest
      → length left ≤ max_frame
      → out ++ left
        ≡ uuid
          ++ (wire_of fs Ending.open_end ++ frame_of (command_of last) (take plain rest) padding)
      → taken ≡ carried fs Ending.open_end
      → Account (state started false left plain last drawn) out taken rest
        × (cost (state started false left plain last drawn) rest ≡ length left)
  unfolding cost
  pending_Account started [] plain last drawn out taken rest fs padding pos all ok some_in bound e
        t =
      absurd (omega arith)
  pending_Account started (b ∷ left) plain last drawn out taken rest fs padding pos all ok some_in
        bound e t =
      ((fs, padding, all, refl, ok, some_in, bound, e, t), refl)

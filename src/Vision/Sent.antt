-- ===== src/Vision/Sent.antt =====
-- crates/clash-proxynet/src/vision.rs: what stands on the wire, and what of the caller's bytes it
-- carries.
use rust_clash.Common.{
  ℕ, ◌<◌, ◌≤◌, ◌≡◌, refl, sym, ◌∙◌, ap, Bool, false, List, [], ◌∷◌, ◌++◌, length, All, take,
  if◌then◌else◌,
}
use mathlib.Core.List.{append_assoc, append-nil}
use rust_clash.Vision.{cmd_end, cmd_continue, max_frame}
use rust_clash.Vision.Frames.{Frames, Ending, frame_of, wire_of, carried, IsFrame}
use rust_clash.Vision.Uplink.{VisionWrite}

pub wire_open :
    (fs : Frames) (content padding : List ℕ)
    → wire_of (fs ++ ((content, padding) ∷ [])) Ending.open_end
      ≡ wire_of fs Ending.open_end ++ frame_of cmd_continue content padding
wire_open [] content padding = append-nil (frame_of cmd_continue content padding)
wire_open ((c, p) ∷ fs) content padding =
    ap (λ w. frame_of cmd_continue c p ++ w) (wire_open fs content padding)
    ∙ sym (
        append_assoc (frame_of cmd_continue c p) (wire_of fs Ending.open_end)
          (frame_of cmd_continue content padding))

pub wire_raw :
    (fs : Frames) (content padding rest : List ℕ)
    → wire_of fs (Ending.raw_end content padding rest)
      ≡ wire_of fs Ending.open_end ++ (frame_of cmd_end content padding ++ rest)
wire_raw [] content padding rest = refl
wire_raw ((c, p) ∷ fs) content padding rest =
    ap (λ w. frame_of cmd_continue c p ++ w) (wire_raw fs content padding rest)
    ∙ sym (
        append_assoc (frame_of cmd_continue c p) (wire_of fs Ending.open_end)
          (frame_of cmd_end content padding ++ rest))

pub carried_open :
    (fs : Frames) (content padding : List ℕ)
    → carried (fs ++ ((content, padding) ∷ [])) Ending.open_end
      ≡ carried fs Ending.open_end ++ content
carried_open [] content padding = append-nil content
carried_open ((c, p) ∷ fs) content padding =
    ap (λ w. c ++ w) (carried_open fs content padding)
    ∙ sym (append_assoc c (carried fs Ending.open_end) content)

pub carried_raw :
    (fs : Frames) (content padding rest : List ℕ)
    → carried fs (Ending.raw_end content padding rest)
      ≡ carried fs Ending.open_end ++ (content ++ rest)
carried_raw [] content padding rest = refl
carried_raw ((c, p) ∷ fs) content padding rest =
    ap (λ w. c ++ w) (carried_raw fs content padding rest)
    ∙ sym (append_assoc c (carried fs Ending.open_end) (content ++ rest))

pub snoc_All :
    (fs : Frames) (f : List ℕ × List ℕ) → All IsFrame fs → IsFrame f → All IsFrame (fs ++ (f ∷ []))
snoc_All [] f all h = (h, tt)
snoc_All (g ∷ fs) f all h = (all.0, snoc_All fs f all.1 h)

-- The command of a frame.
abbrev pub command_of : Bool → ℕ
command_of last = if last then cmd_end else cmd_continue

module _ (uuid : List ℕ) where
  -- What the sent bytes are in each state.
  abbrev pub Sending : Bool → Bool → List ℕ → ℕ → Bool → List ℕ → List ℕ → List ℕ → Type 0
  Sending started free [] plain last out taken rest =
      if free
      then ((fs : Frames) × (content padding more : List ℕ) × All IsFrame fs
          × IsFrame (content, padding)
          × (out
              ≡ uuid ++ (wire_of fs Ending.open_end ++ (frame_of cmd_end content padding ++ more)))
          × (taken ≡ carried fs Ending.open_end ++ (content ++ more)))
      else if started
      then ((fs : Frames) × All IsFrame fs
          × (0 < length (wire_of fs Ending.open_end))
          × (out ≡ uuid ++ wire_of fs Ending.open_end)
          × (taken ≡ carried fs Ending.open_end))
      else (out ≡ []) × (taken ≡ [])
  Sending started free (b ∷ left) plain last out taken rest =
      (fs : Frames) × (padding : List ℕ) × All IsFrame fs
      × (free ≡ false)
      × IsFrame (take plain rest, padding)
      × (plain ≤ length rest)
      × (length (b ∷ left) ≤ max_frame)
      × (out ++ (b ∷ left)
          ≡ uuid
            ++ (wire_of fs Ending.open_end ++ frame_of (command_of last) (take plain rest) padding))
      × (taken ≡ carried fs Ending.open_end)

  abbrev pub Account : VisionWrite → List ℕ → List ℕ → List ℕ → Type 0
  Account s out taken rest =
      Sending s.uuid_sent s.uplink_raw s.left s.write_plain s.pending_end out taken rest

-- ===== src/Vision/Frames.antt =====
-- crates/clash-proxynet/src/vision.rs: frames on the wire, and what they carry.
use rust_clash.Common.{
  ℕ, ◌+◌, ◌<◌, ◌≤◌, ◌≡◌, ◌⊎◌, refl, sym, ◌∙◌, ap, List, [], ◌∷◌, ◌++◌, arith, length, All, take,
  drop, take-append-drop, length-take, cut_append, be16, nat_eq, list_eq,
}
use mathlib.Core.List.{append_assoc}
use rust_clash.Vision.{cmd_continue, cmd_end, max_frame}

-- The bytes of a frame.
abbrev pub frame_of : ℕ → List ℕ → List ℕ → List ℕ
frame_of command content padding =
    command ∷ (be16 (length content) ++ (be16 (length padding) ++ (content ++ padding)))

-- Frames by their content and padding, and how they end: there are no more, or one more with the
-- command END, behind which all bytes are the payload's.
abbrev pub Frames : Type 0
Frames = List (List ℕ × List ℕ)

pub data Ending : Type 0 where
  open_end : Ending
  raw_end : List ℕ → List ℕ → List ℕ → Ending

abbrev pub wire_of : Frames → Ending → List ℕ
wire_of [] Ending.open_end = []
wire_of [] (Ending.raw_end content padding rest) = frame_of cmd_end content padding ++ rest
wire_of ((content, padding) ∷ fs) end = frame_of cmd_continue content padding ++ wire_of fs end

abbrev pub carried : Frames → Ending → List ℕ
carried [] Ending.open_end = []
carried [] (Ending.raw_end content padding rest) = content ++ rest
carried ((content, padding) ∷ fs) end = content ++ carried fs end

-- A frame with content that fits.
abbrev pub IsFrame : List ℕ × List ℕ → Type 0
IsFrame (content, padding) =
    (0 < length content) × (length content + length padding + 5 ≤ max_frame)

abbrev pub IsEnding : Ending → Type 0
IsEnding Ending.open_end = Unit {0}
IsEnding (Ending.raw_end content padding rest) = IsFrame (content, padding)

-- What stands on the wire behind a frame of the command.
abbrev pub Behind : ℕ → List ℕ → List ℕ → Type 0
Behind command wire payload =
    ((command ≡ cmd_continue)
      × ((fs : Frames) × (end : Ending) × All IsFrame fs
          × IsEnding end
          × (wire ≡ wire_of fs end)
          × (payload ≡ carried fs end)))
    ⊎ ((command ≡ cmd_end) × (wire ≡ payload))

-- Equal lists begin with equal parts of one length.
pub fronts :
    (n : ℕ) (a b c d : List ℕ)
    → n ≤ length a
    → n ≤ length c
    → a ++ b ≡ c ++ d
    → (take n a ≡ take n c) × (drop n a ++ b ≡ drop n c ++ d)
fronts n a b c d h k e =
    cut_append (take n a) (drop n a ++ b) (take n c) (drop n c ++ d)
      (sym (append_assoc (take n a) (drop n a) b)
        ∙ ap (λ w. w ++ b) (take-append-drop n a)
        ∙ e
        ∙ ap (λ w. w ++ d) (sym (take-append-drop n c))
        ∙ append_assoc (take n c) (drop n c) d)
      (omega (arith, length-take n a, length-take n c))

pub short_wire : (fs : Frames) (end : Ending) → length (wire_of fs end) < 5 → carried fs end ≡ []
short_wire [] Ending.open_end h = refl
short_wire [] (Ending.raw_end content padding rest) h = absurd (omega arith)
short_wire ((content, padding) ∷ fs) end h = absurd (omega arith)

pub wire_long :
    (fs : Frames) (end : Ending) → 0 < length (wire_of fs end) → 5 ≤ length (wire_of fs end)
wire_long [] Ending.open_end h = absurd (omega arith)
wire_long [] (Ending.raw_end content padding rest) h = omega arith
wire_long ((content, padding) ∷ fs) end h = omega arith

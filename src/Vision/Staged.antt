-- ===== src/Vision/Staged.antt =====
-- crates/clash-proxynet/src/vision.rs: what stage_uplink stages of a buffer that is not empty.
use rust_clash.Common.{
  ℕ, zero, suc, ◌+◌, ◌-◌, ◌<◌, ◌≤◌, ◌≡◌, refl, ap, Bool, true, false, not, ◌&&◌, some, List, [],
  ◌∷◌, ◌++◌, arith, length, take, at, replicate, length-replicate, length-take, ltb, ◌==◌,
  if◌then◌else◌, Bool-cases, inl, inr,
}
use rust_clash.Text.{is_empty}
use rust_clash.Vision.{cmd_end, cmd_continue, max_frame}
use rust_clash.Vision.Frames.{frame_of}
use rust_clash.Vision.Uplink.{
  VisionWrite, uuid_over, padding_len, pad_frame, max_content, stage_uplink,
}
use rust_clash.Vision.Sent.{command_of}

pub take_min : (n : ℕ) (rest : List ℕ) → take (length (take n rest)) rest ≡ take n rest
take_min zero rest = refl
take_min (suc n) [] = refl
take_min (suc n) (x ∷ rest) = ap (◌∷◌ x) (take_min n rest)

max_content_bounds :
    (over : ℕ) → over ≤ 16 → (0 < max_content over) × (max_content over + over + 5 ≤ max_frame)
unfolding max_content
max_content_bounds over h = ground arith

module _ (draw : ℕ → ℕ → ℕ) (uuid : List ℕ) where
  padding_len_le :
      (n content over : ℕ) → padding_len draw n content over ≤ max_frame - over - 5 - content
  unfolding padding_len
  padding_len_le n content over = omega arith

  abbrev pub zeros_of : VisionWrite → ℕ → List ℕ
  zeros_of s content = replicate (padding_len draw s.drawn content (uuid_over s)) 0

  pad_frame_lem :
      (s : VisionWrite) (content : List ℕ) (command : ℕ)
      → length content + uuid_over s + 5 ≤ max_frame
      → pad_frame draw uuid s content command
        ≡ some (
            (if s.uuid_sent then [] else uuid)
            ++ frame_of command content (zeros_of s (length content)))
  unfolding pad_frame
  pad_frame_lem s content command fits =
      let ok : ltb (max_frame - (5 + uuid_over s)) (length content) ≡ false =
        ground (arith, fits) in
      let zero_byte : ℕ = 0 in
      let size =
        length-replicate (padding_len draw s.drawn (length content) (uuid_over s)) zero_byte in
      rw (ok, size) refl

  abbrev pub chunk_of : VisionWrite → List ℕ → List ℕ
  chunk_of s buf = take (max_content (uuid_over s)) buf

  abbrev pub is_last : VisionWrite → List ℕ → Bool
  is_last s buf = not (is_empty (chunk_of s buf)) && at (chunk_of s buf) 0 == 0x17

  uuid_over_le : (started : Bool) → (if started then 0 else 16) ≤ 16
  uuid_over_le true = omega arith
  uuid_over_le false = omega arith

  pub zeros_le : (s : VisionWrite) (n : ℕ) → length (zeros_of s n) ≤ max_frame - uuid_over s - 5 - n
  zeros_le s n =
      let zero_byte : ℕ = 0 in
      omega (
        arith,
        length-replicate (padding_len draw s.drawn n (uuid_over s)) zero_byte,
        padding_len_le s.drawn n (uuid_over s),
      )

  pub chunk_bounds :
      (s : VisionWrite) (x : ℕ) (rest : List ℕ)
      → (0 < length (chunk_of s (x ∷ rest)))
        × (length (chunk_of s (x ∷ rest)) + uuid_over s + 5 ≤ max_frame)
        × (length (chunk_of s (x ∷ rest)) ≤ length (x ∷ rest))
  chunk_bounds s x rest =
      let (pos, fits) = max_content_bounds (uuid_over s) (uuid_over_le s.uuid_sent) in
      let size = length-take (max_content (uuid_over s)) (x ∷ rest) in
      (omega (arith, size, pos), omega (arith, size, fits), omega (arith, size))

  pub stage_uplink_lem :
      (s : VisionWrite) (x : ℕ) (rest : List ℕ)
      → (let chunk = chunk_of s (x ∷ rest) in
          let last = is_last s (x ∷ rest) in
          stage_uplink draw uuid s (x ∷ rest) ≡ record s {
            left =
                (if s.uuid_sent then [] else uuid)
                ++ frame_of (command_of last) chunk (zeros_of s (length chunk));
            write_plain = length chunk;
            pending_end = last;
            drawn = suc s.drawn;
          })
  unfolding stage_uplink
  stage_uplink_lem s x rest =
      let (pos, fits, small) = chunk_bounds s x rest in
      let chunk = chunk_of s (x ∷ rest) in
      elim (Bool-cases (is_last s (x ∷ rest))) [
        | inl h ↦ rw (stage_uplink, h, pad_frame_lem s chunk cmd_end fits, h) refl
        | inr h ↦ rw (stage_uplink, h, pad_frame_lem s chunk cmd_continue fits, h) refl
      ]

-- ===== src/Vision/Handed.antt =====
-- crates/clash-proxynet/src/vision.rs: the bytes that poll_read hands out are the next ones due.
use rust_clash.Common.{
  ℕ, suc, ◌<◌, ◌≡◌, refl, sym, ◌∙◌, ap, Option, List, [], ◌∷◌, ◌++◌, arith, length, take, drop,
  take-append-drop, length-take, length-drop, nat_eq, list_eq,
}
use mathlib.Core.Path.{subst}
use mathlib.Core.List.{append_assoc}
use Prim.Native.Nat.{min}
use rust_clash.Io.{Next}
use rust_clash.Io.Steps.{Settles}
use rust_clash.Vision.{VisionRead, Mode, read_raw, feed, read_framed, decide_loop}
use rust_clash.Vision.Frames.{Behind, fronts}
use rust_clash.Vision.Due.{state, Due, raw_feed}
use rust_clash.Vision.Branches.{framed_content}

module _ (uuid : List ℕ) (detach : List ℕ → Option (List ℕ)) where
  pub raw-Settles :
      (fuel room start : ℕ) (buffered : List ℕ) (c r p e : ℕ) (bytes payload : List ℕ)
      → 0 < room
      → buffered ++ bytes ≡ payload
      → Settles
          (Due uuid)
          feed
          bytes
          payload
          (decide_loop uuid detach (suc fuel) room (state Mode.raw start buffered c r p e))
  unfolding decide_loop read_raw
  raw-Settles fuel room start [] c r p e bytes payload pos q = (
    pos,
    (q, refl),
    λ got rest fits gone cut. raw_feed uuid start c r p e got rest bytes payload q gone cut,
  )
  raw-Settles fuel room start (b ∷ buffered) c r p e bytes payload pos q =
      let n = min (length (b ∷ buffered)) room in
      let front = take n (b ∷ buffered) in
      let back = drop n (b ∷ buffered) in
      (
        back ++ bytes,
        sym q
            ∙ ap (λ w. w ++ bytes) (sym (take-append-drop n (b ∷ buffered)))
            ∙ append_assoc front back bytes,
        (refl, refl),
        λ nil. absurd (omega (arith, pos, ap length nil, length-take n (b ∷ buffered))),
      )

  -- Content that is handed out.
  pub content-Settles :
      (loop : VisionRead → Next VisionRead) (room start : ℕ) (b : ℕ) (buffered : List ℕ) (c e : ℕ)
      (bytes payload : List ℕ) (x : ℕ) (content padding wire rest : List ℕ)
      → 0 < room
      → (b ∷ buffered) ++ bytes ≡ (x ∷ content) ++ (padding ++ wire)
      → payload ≡ (x ∷ content) ++ rest
      → Behind c wire rest
      → Settles (Due uuid) feed bytes payload (
          read_framed uuid detach loop room
            (state Mode.framed start (b ∷ buffered) c (length (x ∷ content)) (length padding) e))
  content-Settles loop room start b buffered c e bytes payload x content padding wire rest pos eq q
        behind =
      let n = min (min (length (x ∷ content)) (length (b ∷ buffered))) room in
      let (same, left) =
        fronts n (b ∷ buffered) bytes (x ∷ content) (padding ++ wire) (omega arith) (omega arith)
          eq in
      subst (λ w. Settles (Due uuid) feed bytes payload w)
        (sym (
          framed_content uuid detach loop room
            (state Mode.framed start (b ∷ buffered) c (length (x ∷ content)) (length padding) e)
            (omega arith) (omega arith)))
        (
          drop n (x ∷ content) ++ rest,
          q
              ∙ ap (λ w. w ++ rest) (sym (take-append-drop n (x ∷ content)))
              ∙ append_assoc (take n (x ∷ content)) (drop n (x ∷ content)) rest
              ∙ ap (λ w. w ++ (drop n (x ∷ content) ++ rest)) (sym same),
          (
            drop n (x ∷ content),
            padding,
            wire,
            rest,
            length-drop n (x ∷ content),
            refl,
            left,
            refl,
            behind,
            refl,
          ),
          λ nil. absurd (omega (arith, pos, ap length nil, length-take n (b ∷ buffered))),
        )

-- ===== src/Vision/Fuel.antt =====
-- crates/clash-proxynet/src/vision.rs: the rounds of the loop of poll_read are enough in every
-- state.
use rust_clash.Common.{
  ℕ, zero, suc, ◌+◌, ◌-◌, ◌<◌, ◌≤◌, ◌≡◌, inl, inr, refl, sym, ◌∙◌, ap, true, false, ◌&&◌, ◌||◌,
  Option, none, some, List, arith, length, length-drop, drop, ltb, ◌==◌, Bool-cases, at, from_be16,
  Option-cases, ◌⊎◌, take, not, list_beq, nat_eq,
}
use Prim.Native.Nat.{min}
use rust_clash.Io.{Next}
use rust_clash.Vision.{
  VisionRead, Mode, max_frame, consume, try_decide, read_frame_header, finish_framing, read_framed,
  decide_loop, settle, read_raw, fill_from_session,
}

-- How many rounds more there can be.
abbrev weight : Mode → ℕ → ℕ
weight Mode.raw n = 0
weight Mode.framed n = suc n
weight Mode.undecided n = suc (suc n)

abbrev rounds : VisionRead → ℕ
rounds s = weight s.mode (length s.buffered)

mode_cases : (m : Mode) → (m ≡ Mode.raw) ⊎ ((m ≡ Mode.framed) ⊎ (m ≡ Mode.undecided))
mode_cases Mode.raw = inl refl
mode_cases Mode.framed = inr (inl refl)
mode_cases Mode.undecided = inr (inr refl)

weight_le : (m : Mode) (n : ℕ) → weight m n < n + 3
weight_le Mode.raw n = omega arith
weight_le Mode.framed n = omega arith
weight_le Mode.undecided n = omega arith

header_shape :
    (s : VisionRead)
    → (read_frame_header s).0 ≡ true
    → ((read_frame_header s).1.mode ≡ s.mode)
      × ((read_frame_header s).1.buffered ≡ drop 5 s.buffered)
unfolding read_frame_header
header_shape s ok =
    let content = from_be16 (at s.buffered 1) (at s.buffered 2) in
    let padding = from_be16 (at s.buffered 3) (at s.buffered 4) in
    elim (Bool-cases (ltb max_frame (content + padding + 5))) [
      | inl big ↦
          let bad : (read_frame_header s).0 ≡ false = rw (read_frame_header, big) refl in absurd cc
      | inr fits ↦ elim (Bool-cases (ltb 0 content)) [
        | inl full ↦ rw (read_frame_header, fits, full) (refl, refl)
        | inr bare ↦ rw (read_frame_header, fits, bare) (refl, refl)
      ]
    ]

header_rounds :
    (s : VisionRead)
    → s.mode ≡ Mode.framed
    → ltb (length s.buffered) 5 ≡ false
    → (read_frame_header s).0 ≡ true
    → rounds (read_frame_header s).1 < suc (length s.buffered)
header_rounds s framed long ok =
    let t = (read_frame_header s).1 in
    let (mode, buffered) = header_shape s ok in
    let less : rounds t ≡ suc (length t.buffered) =
      ap (λ m. weight m (length t.buffered)) (mode ∙ framed) in
    ground (arith, less, long, ap length buffered, length-drop 5 s.buffered)

module _ (uuid : List ℕ) (detach : List ℕ → Option (List ℕ)) where
  finish_raw : (s : VisionRead) → (finish_framing uuid detach s).mode ≡ Mode.raw
  unfolding finish_framing
  finish_raw s = elim (Bool-cases (s.command == 2)) [
    | inl h ↦ elim (Option-cases (detach s.buffered)) [
      | inl e ↦ rw (finish_framing, h, e) refl
      | inr (front, e) ↦ rw (finish_framing, h, e) refl
    ]
    | inr h ↦ rw h refl
  ]

  framed_same :
      (loop other : VisionRead → Next VisionRead) (room : ℕ) (s : VisionRead)
      → s.mode ≡ Mode.framed
      → ((t : VisionRead) → rounds t < suc (length s.buffered) → loop t ≡ other t)
      → read_framed uuid detach loop room s ≡ read_framed uuid detach other room s
  unfolding read_framed
  framed_same loop other room s framed same =
      elim (Bool-cases (s.remaining_content == 0 && s.remaining_padding == 0)) [
        | inl over ↦ elim (Bool-cases (s.command == 1 || s.command == 2)) [
          | inl last ↦
              rw (over, last)
                (same (finish_framing uuid detach s) (rw (finish_raw s) (omega arith)))
          | inr more ↦ elim (Bool-cases (ltb (length s.buffered) 5)) [
            | inl short ↦ rw (over, more, short) refl
            | inr long ↦ elim (Bool-cases (read_frame_header s).0) [
              | inl ok ↦
                  rw (over, more, long, ok)
                    (same (read_frame_header s).1 (header_rounds s framed long ok))
              | inr bad ↦ rw (over, more, long, bad) refl
            ]
          ]
        ]
        | inr left ↦ elim (Bool-cases (length s.buffered == 0)) [
          | inl none_in ↦ rw (left, none_in) refl
          | inr some_in ↦ elim (Bool-cases (ltb 0 s.remaining_content)) [
            | inl wanted ↦ rw (left, some_in, wanted) refl
            | inr padding ↦
                let skip = min s.remaining_padding (length s.buffered) in
                rw (left, some_in, padding)
                  (same (record (consume skip s) { remaining_padding = s.remaining_padding - skip })
                    (rw framed (ground (arith, length-drop skip s.buffered))))
          ]
        ]
      ]

  try_decide_cases :
      (s : VisionRead)
      → s.mode ≡ Mode.undecided
      → (try_decide uuid s ≡ none)
        ⊎ ((t : VisionRead) × (try_decide uuid s ≡ some t) × (rounds t < rounds s))
  unfolding try_decide
  try_decide_cases s undecided =
      let compared = min (length s.buffered) 16 in
      let much : rounds s ≡ suc (suc (length s.buffered)) =
        ap (λ m. weight m (length s.buffered)) undecided in
      elim (Bool-cases
        (ltb 0 compared && not (list_beq (take compared s.buffered) (take compared uuid)))) [
          | inl other ↦
              inr (record s { mode = Mode.raw }, rw (try_decide, other) refl, omega (arith, much))
          | inr same ↦ elim (Bool-cases (ltb (length s.buffered) 21)) [
            | inl short ↦ inl (rw (try_decide, same, short) refl)
            | inr long ↦ inr (
              record (consume 16 s) { mode = Mode.framed },
              rw (try_decide, same, long) refl,
              omega (arith, much, length-drop 16 s.buffered),
            )
          ]
        ]

  -- A round, by the mode.
  module _ (fuel room : ℕ) (s : VisionRead) where
    raw_round :
        (answer : Next VisionRead)
        → s.mode ≡ Mode.raw
        → read_raw room s ≡ answer
        → decide_loop uuid detach (suc fuel) room s ≡ answer
    unfolding decide_loop
    raw_round answer mode same = rw (decide_loop, mode) same

    framed_round :
        (answer : Next VisionRead)
        → s.mode ≡ Mode.framed
        → read_framed uuid detach (λ t. decide_loop uuid detach fuel room t) room s ≡ answer
        → decide_loop uuid detach (suc fuel) room s ≡ answer
    unfolding decide_loop
    framed_round answer mode same = rw (decide_loop, mode) same

    waiting_round :
        (answer : Next VisionRead)
        → s.mode ≡ Mode.undecided
        → try_decide uuid s ≡ none
        → fill_from_session s ≡ answer
        → decide_loop uuid detach (suc fuel) room s ≡ answer
    unfolding decide_loop
    waiting_round answer mode e same = rw (decide_loop, mode, e) same

    decided_round :
        (t : VisionRead)
        → s.mode ≡ Mode.undecided
        → try_decide uuid s ≡ some t
        → decide_loop uuid detach (suc fuel) room s ≡ decide_loop uuid detach fuel room t
    unfolding decide_loop
    decided_round t mode e = rw (decide_loop, mode, e) refl

  -- More rounds than there can be change nothing.
  decide_loop_more :
      (fuel more room : ℕ) (s : VisionRead)
      → rounds s < fuel
      → fuel ≤ more
      → decide_loop uuid detach more room s ≡ decide_loop uuid detach fuel room s
  decide_loop_more zero more room s h k = absurd (omega arith)
  decide_loop_more (suc fuel) zero room s h k = absurd (omega arith)
  decide_loop_more (suc fuel) (suc more) room s h k = elim (mode_cases s.mode) [
    | inl raw ↦
        raw_round more room s (read_raw room s) raw refl
        ∙ sym (raw_round fuel room s (read_raw room s) raw refl)
    | inr (inl framed) ↦
        let much : rounds s ≡ suc (length s.buffered) =
          ap (λ m. weight m (length s.buffered)) framed in
        framed_round more room s
          (read_framed uuid detach (λ t. decide_loop uuid detach more room t) room s) framed refl
        ∙ framed_same (λ t. decide_loop uuid detach more room t)
            (λ t. decide_loop uuid detach fuel room t) room s framed
            (λ t less. decide_loop_more fuel more room t (omega (arith, much, h)) (omega arith))
        ∙ sym (
            framed_round fuel room s
              (read_framed uuid detach (λ t. decide_loop uuid detach fuel room t) room s) framed
              refl)
    | inr (inr undecided) ↦ elim (try_decide_cases s undecided) [
      | inl e ↦
          waiting_round more room s (fill_from_session s) undecided e refl
          ∙ sym (waiting_round fuel room s (fill_from_session s) undecided e refl)
      | inr (t, e, less) ↦
          decided_round more room s t undecided e
          ∙ decide_loop_more fuel more room t (omega arith) (omega arith)
          ∙ sym (decided_round fuel room s t undecided e)
    ]
  ]

  -- The loop with more rounds than settle gives it answers what settle does, in every state.
  settle_enough :
      (more room : ℕ) (s : VisionRead)
      → length s.buffered + 3 ≤ more
      → decide_loop uuid detach more room s ≡ settle uuid detach room s
  unfolding settle
  settle_enough more room s h =
      decide_loop_more (length s.buffered + 3) more room s (weight_le s.mode (length s.buffered)) h

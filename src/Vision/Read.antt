-- ===== src/Vision/Read.antt =====
-- crates/clash-proxynet/src/vision.rs: every step of the reader keeps what is due.
use rust_clash.Common.{
  ℕ, suc, ◌+◌, ◌<◌, ◌≤◌, ◌≡◌, inl, inr, refl, sym, ◌∙◌, ap, Option, List, [], ◌++◌, arith, length,
  length-append, All, drop, length-drop, ltb, Bool-cases, nat_eq, list_eq,
}
use mathlib.Core.Path.{subst}
use Prim.Native.Nat.{min}
use rust_clash.Io.Reads.{length_zero}
use rust_clash.Io.Steps.{Settles, IsLawful}
use rust_clash.Vision.{VisionRead, Mode, fill_from_session, feed, decide_loop, settle, reader}
use rust_clash.Vision.Frames.{
  Frames, Ending, wire_of, carried, IsFrame, IsEnding, fronts, wire_long,
}
use rust_clash.Vision.Due.{state, Due, fill_undecided}
use rust_clash.Vision.Branches.{try_decide-none, try_decide-some}
use rust_clash.Vision.Handed.{raw-Settles}
use rust_clash.Vision.Framed.{framed-Settles}

module _ (uuid : List ℕ) (sixteen : length uuid ≡ 16) (detach : List ℕ → Option (List ℕ)) where
  undecided-Settles :
      (fuel room start : ℕ) (buffered : List ℕ) (e : ℕ) (bytes payload : List ℕ) (fs : Frames)
      (end : Ending)
      → 0 < room
      → length buffered + 2 ≤ fuel
      → All IsFrame fs
      → IsEnding end
      → 0 < length (wire_of fs end)
      → buffered ++ bytes ≡ uuid ++ wire_of fs end
      → payload ≡ carried fs end
      → Settles
          (Due uuid)
          feed
          bytes
          payload
          (decide_loop uuid detach (suc fuel) room (state Mode.undecided start buffered 0 0 0 e))
  unfolding decide_loop
  undecided-Settles fuel room start buffered e bytes payload fs end pos f all ok some_wire eq q =
      let s = state Mode.undecided start buffered 0 0 0 e in
      let same =
        (fronts (min (length buffered) 16) buffered bytes uuid (wire_of fs end) (omega arith)
          (omega (arith, sixteen)) eq).0 in
      elim (Bool-cases (ltb (length buffered) 21)) [
        | inl short ↦
            let next : decide_loop uuid detach (suc fuel) room s ≡ fill_from_session s =
              rw (decide_loop, try_decide-none uuid s same (ground arith)) refl in
            subst (λ w. Settles (Due uuid) feed bytes payload w) (sym next)
              (fill_undecided uuid start buffered 0 0 0 e bytes payload (ground arith)
                (fs, end, all, ok, some_wire, eq, q, refl, refl, refl, refl)
                (λ nil. absurd (
                  ground (
                    arith,
                    wire_long fs end some_wire,
                    ap length eq,
                    ap length nil,
                    sixteen,
                    length-append buffered bytes,
                    length-append uuid (wire_of fs end),
                  ))))
        | inr long ↦
            let many : 21 ≤ length buffered = ground arith in
            let next : decide_loop uuid detach (suc fuel) room s
                ≡ decide_loop uuid detach fuel room
                    (state Mode.framed (start + 16) (drop 16 buffered) 0 0 0 e) =
              rw (decide_loop, try_decide-some uuid s same many) refl in
            let behind =
              (fronts 16 buffered bytes uuid (wire_of fs end) (omega arith) (omega (arith, sixteen))
                eq).1 in
            let gone : drop 16 uuid ≡ [] =
              length_zero (drop 16 uuid) (omega (arith, sixteen, length-drop 16 uuid)) in
            subst (λ w. Settles (Due uuid) feed bytes payload w) (sym next)
              (framed-Settles uuid detach fuel room (start + 16) (drop 16 buffered) 0 e bytes
                payload [] [] (wire_of fs end) (carried fs end) pos
                (omega (arith, length-drop 16 buffered))
                (behind ∙ ap (λ l. l ++ wire_of fs end) gone) q
                (inl (refl, (fs, end, all, ok, refl, refl))))
      ]

  abbrev spliced_state : Mode → ℕ → List ℕ → ℕ → ℕ → ℕ → ℕ → Option (List ℕ) → VisionRead
  spliced_state mode start buffered command content padding empty spliced = record {
    mode = mode;
    start = start;
    buffered = buffered;
    command = command;
    remaining_content = content;
    remaining_padding = padding;
    padding_only = empty;
    spliced = spliced;
  }

  by_mode :
      (mode : Mode) (room start : ℕ) (buffered : List ℕ) (c r p e : ℕ) (sp : Option (List ℕ))
      (bytes payload : List ℕ)
      → 0 < room
      → (Due uuid) (spliced_state mode start buffered c r p e sp) bytes payload
      → Settles
          (Due uuid)
          feed
          bytes
          payload
          (settle uuid detach room (spliced_state mode start buffered c r p e sp))
  unfolding settle
  by_mode Mode.undecided room start buffered c r p e sp bytes payload pos
        (fs, end, all, ok, some_wire, eq, q, c0, r0, p0, s0) =
      let same : spliced_state Mode.undecided start buffered c r p e sp
          ≡ state Mode.undecided start buffered 0 0 0 e =
        rw (c0, r0, p0, s0) refl in
      let fuel : length buffered + 3 ≡ suc (length buffered + 2) = omega arith in
      subst
        (λ t.
          Settles (Due uuid) feed bytes payload
            (decide_loop uuid detach (length buffered + 3) room t))
        (sym same)
        (subst
          (λ n.
            Settles (Due uuid) feed bytes payload
              (decide_loop uuid detach n room (state Mode.undecided start buffered 0 0 0 e)))
          (sym fuel)
          (undecided-Settles (length buffered + 2) room start buffered e bytes payload fs end pos
            (omega arith) all ok some_wire eq q))
  by_mode Mode.framed room start buffered c r p e sp bytes payload pos
        (content, padding, wire, rest, lc, lp, eq, q, behind, s0) =
      let same : spliced_state Mode.framed start buffered c r p e sp
          ≡ state Mode.framed start buffered c (length content) (length padding) e =
        rw (lc, lp, s0) refl in
      subst
        (λ t.
          Settles (Due uuid) feed bytes payload
            (decide_loop uuid detach (length buffered + 3) room t))
        (sym same)
        (framed-Settles uuid detach (length buffered + 3) room start buffered c e bytes payload
          content padding wire rest pos (omega arith) eq q behind)
  by_mode Mode.raw room start buffered c r p e sp bytes payload pos (eq, s0) =
      let same : spliced_state Mode.raw start buffered c r p e sp
          ≡ state Mode.raw start buffered c r p e =
        rw s0 refl in
      let fuel : length buffered + 3 ≡ suc (length buffered + 2) = omega arith in
      subst
        (λ t.
          Settles (Due uuid) feed bytes payload
            (decide_loop uuid detach (length buffered + 3) room t))
        (sym same)
        (subst
          (λ n.
            Settles (Due uuid) feed bytes payload
              (decide_loop uuid detach n room (state Mode.raw start buffered c r p e)))
          (sym fuel)
          (raw-Settles uuid detach (length buffered + 2) room start buffered c r p e bytes payload
            pos eq))

  pub reader-IsLawful : IsLawful (Due uuid) (reader uuid detach)
  reader-IsLawful room s bytes payload pos d =
      by_mode s.mode room s.start s.buffered s.command s.remaining_content s.remaining_padding
        s.padding_only s.spliced bytes payload pos d

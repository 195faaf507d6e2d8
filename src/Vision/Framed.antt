-- ===== src/Vision/Framed.antt =====
-- crates/clash-proxynet/src/vision.rs: the loop of poll_read behind the identifier keeps what is
-- due.
use rust_clash.Common.{
  ℕ, zero, suc, ◌+◌, ◌<◌, ◌≤◌, ◌≡◌, inl, inr, refl, sym, ◌∙◌, ap, false, Option, List, [], ◌∷◌,
  ◌++◌, arith, length, length-append, All, drop, length-drop, ltb, ◌==◌, Bool-cases, nat_eq,
  list_eq,
}
use mathlib.Core.Path.{subst}
use Prim.Native.Nat.{min}
use rust_clash.Io.{Next}
use rust_clash.Io.Steps.{Settles}
use rust_clash.Vision.{
  VisionRead, Mode, cmd_continue, cmd_end, feed, finish_framing, read_framed, decide_loop,
}
use rust_clash.Vision.Frames.{
  frame_of, Frames, Ending, wire_of, carried, IsFrame, IsEnding, Behind, fronts, short_wire,
}
use rust_clash.Vision.Due.{state, Due, fill_framed}
use rust_clash.Vision.Branches.{
  header_lem, framed_empty, framed_skip, framed_end, framed_short, framed_header,
}
use rust_clash.Vision.Handed.{raw-Settles, content-Settles}

module _ (uuid : List ℕ) (detach : List ℕ → Option (List ℕ)) where
  raw_after :
      (fuel room start : ℕ) (buffered : List ℕ) (c e : ℕ) (bytes payload : List ℕ)
      → 0 < fuel
      → 0 < room
      → c ≡ cmd_end
      → buffered ++ bytes ≡ payload
      → Settles (Due uuid) feed bytes payload (
          decide_loop uuid detach fuel room
            (finish_framing uuid detach (state Mode.framed start buffered c 0 0 e)))
  unfolding finish_framing
  raw_after zero room start buffered c e bytes payload f pos c1 q = absurd (omega arith)
  raw_after (suc fuel) room start buffered c e bytes payload f pos c1 q =
      let other : (c == 2) ≡ false = ground arith in
      rw other (raw-Settles uuid detach fuel room start buffered c 0 0 e bytes payload pos q)

  -- Between two frames, with too few bytes for a header.
  short-Settles :
      (loop : VisionRead → Next VisionRead) (room start : ℕ) (buffered : List ℕ) (c e : ℕ)
      (bytes payload : List ℕ) (fs : Frames) (end : Ending)
      → length buffered < 5
      → c ≡ cmd_continue
      → All IsFrame fs
      → IsEnding end
      → buffered ++ bytes ≡ wire_of fs end
      → payload ≡ carried fs end
      → Settles
          (Due uuid)
          feed
          bytes
          payload
          (read_framed uuid detach loop room (state Mode.framed start buffered c 0 0 e))
  short-Settles loop room start buffered c e bytes payload fs end few c0 all ok eq q =
      let s = state Mode.framed start buffered c 0 0 e in
      subst (λ w. Settles (Due uuid) feed bytes payload w)
        (sym (framed_short uuid detach loop room s refl refl c0 few))
        (fill_framed uuid start buffered c 0 0 e bytes payload (omega arith)
          (
            [],
            [],
            wire_of fs end,
            carried fs end,
            refl,
            refl,
            eq,
            q,
            inl (c0, (fs, end, all, ok, refl, refl)),
            refl,
          )
          (λ nil.
            q
            ∙ short_wire fs end
                (omega (arith, ap length eq, length-append buffered bytes, ap length nil))))

  -- And with a whole header.
  header_next :
      (loop : VisionRead → Next VisionRead) (room start : ℕ) (buffered : List ℕ) (c e : ℕ)
      (bytes : List ℕ) (command : ℕ) (content padding more : List ℕ)
      → 5 ≤ length buffered
      → c ≡ cmd_continue
      → IsFrame (content, padding)
      → buffered ++ bytes ≡ frame_of command content padding ++ more
      → read_framed uuid detach loop room (state Mode.framed start buffered c 0 0 e)
        ≡ loop (
            state Mode.framed
              (start + 5)
              (drop 5 buffered)
              command
              (length content)
              (length padding)
              0)
  header_next loop room start buffered c e bytes command content padding more many c0 ok eq =
      let s = state Mode.framed start buffered c 0 0 e in
      let (read, left) =
        header_lem start buffered c e bytes command content padding more many ok eq in
      framed_header uuid detach loop room s refl refl c0 many (ap (λ r. r.0) read)
      ∙ ap (λ r. loop r.1) read

  pub framed-Settles :
      (fuel room start : ℕ) (buffered : List ℕ) (c e : ℕ) (bytes payload : List ℕ)
      (content padding wire rest : List ℕ)
      → 0 < room
      → length buffered + 1 < fuel
      → buffered ++ bytes ≡ content ++ (padding ++ wire)
      → payload ≡ content ++ rest
      → Behind c wire rest
      → Settles (Due uuid) feed bytes payload (
          decide_loop uuid detach fuel room
            (state Mode.framed start buffered c (length content) (length padding) e))
  unfolding decide_loop
  framed-Settles zero room start buffered c e bytes payload content padding wire rest pos f eq q
        behind =
      absurd (omega arith)
  framed-Settles (suc fuel) room start [] c e bytes payload (x ∷ content) padding wire rest pos f eq
        q behind =
      let s = state Mode.framed start [] c (length (x ∷ content)) (length padding) e in
      subst (λ w. Settles (Due uuid) feed bytes payload w)
        (sym (
          framed_empty uuid detach (λ t. decide_loop uuid detach fuel room t) room s (omega arith)
            refl))
        (fill_framed uuid start [] c (length (x ∷ content)) (length padding) e bytes payload
          (omega arith) (x ∷ content, padding, wire, rest, refl, refl, eq, q, behind, refl)
          (λ nil. absurd (omega (arith, ap length eq, ap length nil))))
  framed-Settles (suc fuel) room start (b ∷ buffered) c e bytes payload (x ∷ content) padding wire
        rest pos f eq q behind =
      content-Settles uuid detach (λ t. decide_loop uuid detach fuel room t) room start b buffered c
        e bytes payload x content padding wire rest pos eq q behind
  framed-Settles (suc fuel) room start [] c e bytes payload [] (y ∷ padding) wire rest pos f eq q
        behind =
      let s = state Mode.framed start [] c 0 (length (y ∷ padding)) e in
      subst (λ w. Settles (Due uuid) feed bytes payload w)
        (sym (
          framed_empty uuid detach (λ t. decide_loop uuid detach fuel room t) room s (omega arith)
            refl))
        (fill_framed uuid start [] c 0 (length (y ∷ padding)) e bytes payload (omega arith)
          ([], y ∷ padding, wire, rest, refl, refl, eq, q, behind, refl)
          (λ nil. absurd (omega (arith, ap length eq, ap length nil))))
  framed-Settles (suc fuel) room start (b ∷ buffered) c e bytes payload [] (y ∷ padding) wire rest
        pos f eq q behind =
      let s = state Mode.framed start (b ∷ buffered) c 0 (length (y ∷ padding)) e in
      let n = min (length (y ∷ padding)) (length (b ∷ buffered)) in
      let (same, left) =
        fronts n (b ∷ buffered) bytes (y ∷ padding) wire (omega arith) (omega arith) eq in
      let size = length-drop n (y ∷ padding) in
      subst (λ w. Settles (Due uuid) feed bytes payload w)
        (sym (
          framed_skip uuid detach (λ t. decide_loop uuid detach fuel room t) room s refl
            (omega arith) (omega arith)
          ∙ ap
              (λ k.
                decide_loop uuid detach fuel room
                  (state Mode.framed (start + n) (drop n (b ∷ buffered)) c 0 k e))
              (sym size)))
        (framed-Settles fuel room (start + n) (drop n (b ∷ buffered)) c e bytes payload []
          (drop n (y ∷ padding)) wire rest pos (omega (arith, length-drop n (b ∷ buffered))) left q
          behind)
  framed-Settles (suc fuel) room start buffered c e bytes payload [] [] wire rest pos f eq q
        (inr (last, same)) =
      let s = state Mode.framed start buffered c 0 0 e in
      subst (λ w. Settles (Due uuid) feed bytes payload w)
        (sym
          (framed_end uuid detach (λ t. decide_loop uuid detach fuel room t) room s refl refl last))
        (raw_after fuel room start buffered c e bytes payload (omega arith) pos last
          (eq ∙ same ∙ sym q))
  framed-Settles (suc fuel) room start buffered c e bytes payload [] [] wire rest pos f eq q
        (inl (c0, ([], Ending.open_end, all, ok, w, r))) =
      short-Settles (λ t. decide_loop uuid detach fuel room t) room start buffered c e bytes payload
        [] Ending.open_end (omega (arith, ap length (eq ∙ w), length-append buffered bytes)) c0 all
        ok (eq ∙ w) (q ∙ r)
  framed-Settles (suc fuel) room start buffered c e bytes payload [] [] wire rest pos f eq q
        (inl (c0, ([], Ending.raw_end inner fill tail, all, ok, w, r))) =
      elim (Bool-cases (ltb (length buffered) 5)) [
        | inl short ↦
            short-Settles (λ t. decide_loop uuid detach fuel room t) room start buffered c e bytes
              payload [] (Ending.raw_end inner fill tail) (ground arith) c0 all ok (eq ∙ w) (q ∙ r)
        | inr long ↦
            let many : 5 ≤ length buffered = ground arith in
            let whole = eq ∙ w in
            let (read, left) =
              header_lem start buffered c e bytes cmd_end inner fill (tail) many ok whole in
            subst (λ n. Settles (Due uuid) feed bytes payload n)
              (sym (
                header_next (λ t. decide_loop uuid detach fuel room t) room start buffered c e bytes
                  cmd_end inner fill (tail) many c0 ok whole))
              (framed-Settles fuel room (start + 5) (drop 5 buffered) cmd_end 0 bytes payload inner
                fill (tail) (tail) pos (omega (arith, length-drop 5 buffered)) left (q ∙ r)
                (inr (refl, refl)))
      ]
  framed-Settles (suc fuel) room start buffered c e bytes payload [] [] wire rest pos f eq q
        (inl (c0, ((inner, fill) ∷ fs, end, all, ok, w, r))) =
      elim (Bool-cases (ltb (length buffered) 5)) [
        | inl short ↦
            short-Settles (λ t. decide_loop uuid detach fuel room t) room start buffered c e bytes
              payload ((inner, fill) ∷ fs) end (ground arith) c0 all ok (eq ∙ w) (q ∙ r)
        | inr long ↦
            let many : 5 ≤ length buffered = ground arith in
            let whole = eq ∙ w in
            let (read, left) =
              header_lem start buffered c e bytes cmd_continue inner fill (wire_of fs end) many
                all.0 whole in
            subst (λ n. Settles (Due uuid) feed bytes payload n)
              (sym (
                header_next (λ t. decide_loop uuid detach fuel room t) room start buffered c e bytes
                  cmd_continue inner fill (wire_of fs end) many c0 all.0 whole))
              (framed-Settles fuel room (start + 5) (drop 5 buffered) cmd_continue 0 bytes payload
                inner fill (wire_of fs end) (carried fs end) pos
                (omega (arith, length-drop 5 buffered)) left (q ∙ r)
                (inl (refl, (fs, end, all.1, ok, refl, refl))))
      ]

-- ===== src/Io/Reads.antt =====
-- When every step of a reader keeps what is due, its reads deliver the front of it, in whatever
-- pieces the bytes arrive; and all of it, when they arrive at all.
use rust_clash.Common.{
  ℕ, suc, ◌+◌, ◌≤◌, ◌<◌, ◌≡◌, refl, sym, ◌∙◌, ap, List, [], ◌∷◌, ◌++◌, arith, length, All,
  length-append,
}
use mathlib.Core.List.{append_assoc}
use rust_clash.Io.{Poll, Turn, Next, Reader, Outcome, take_turn, poll, reads}
use rust_clash.Io.Steps.{Gives, Settles, IsLawful, OutcomeKeeps, stops, turn_keeps}

pub length_zero : (payload : List ℕ) → length payload ≤ 0 → payload ≡ []
length_zero [] h = refl
length_zero (b ∷ payload) h = absurd (omega arith)

shorter :
    (part left payload : List ℕ) (n : ℕ)
    → payload ≡ part ++ left
    → (part ≡ [] → payload ≡ [])
    → length payload ≤ suc n
    → length left ≤ n
shorter [] left payload n e h p = omega (arith, ap length e, ap length (h refl))
shorter (b ∷ part) left payload n e h p = omega (arith, ap length e, length-append part left)

abbrev pub Front : List ℕ → List ℕ → Type 0
Front payload part = (left : List ℕ) × (payload ≡ part ++ left)

module _ {S : Type 0} (Due : S → List ℕ → List ℕ → Type 0) (reader : Reader S)
    (lawful : IsLawful Due reader) where
  out_of_turns :
      (bytes payload : List ℕ) (next : Next S)
      → Settles Due reader.feed bytes payload next
      → OutcomeKeeps Due bytes payload [] (elim next as (λ _. Outcome S) [
        | Next.stop r t ↦ (r, t, bytes, [])
        | Next.want cap t ↦ (Poll.pending, t, bytes, [])
      ])
  out_of_turns bytes payload (Next.stop r t) h =
      stops Due bytes bytes payload r t [] [] h (λ all. (tt, omega arith))
  out_of_turns bytes payload (Next.want cap t) h = (h.1, λ all few. omega arith)

  at_turn :
      (bytes payload : List ℕ) (turn : Turn) (turns : List Turn) (next : Next S)
      (loop : S → List ℕ → Outcome S)
      → Settles Due reader.feed bytes payload next
      → ((t : S) (rest : List ℕ)
          → Due t rest payload
          → OutcomeKeeps Due rest payload turns (loop t rest))
      → OutcomeKeeps Due bytes payload (turn ∷ turns) (elim next as (λ _. Outcome S) [
        | Next.stop r t ↦ (r, t, bytes, turn ∷ turns)
        | Next.want cap t ↦ take_turn loop (reader.feed t) cap t bytes turns turn
      ])
  at_turn bytes payload turn turns (Next.stop r t) loop h k =
      stops Due bytes bytes payload r t (turn ∷ turns) (turn ∷ turns) h (λ all. (all, omega arith))
  at_turn bytes payload turn turns (Next.want cap t) loop (c, d, h) k =
      turn_keeps Due t bytes payload turn turns cap loop (reader.feed t) c d h k

  pub poll_keeps :
      (room : ℕ) (s : S) (bytes payload : List ℕ) (turns : List Turn)
      → 0 < room
      → Due s bytes payload
      → OutcomeKeeps Due bytes payload turns (poll reader room s bytes turns)
  unfolding poll
  poll_keeps room s bytes payload [] r d =
      out_of_turns bytes payload (reader.settle room s) (lawful room s bytes payload r d)
  poll_keeps room s bytes payload (turn ∷ turns) r d =
      at_turn bytes payload turn turns (reader.settle room s)
        (λ u rest. poll reader room u rest turns) (lawful room s bytes payload r d)
        (λ t rest i. poll_keeps room t rest payload turns r i)

  -- What follows a call in `reads`.
  rest_of : List ℕ → Outcome S → List ℕ
  rest_of rooms (Poll.ready part, t, rest, later) = part ++ reads reader rooms t rest later
  rest_of rooms (Poll.failed e, t, rest, later) = []
  rest_of rooms (Poll.pending, t, rest, later) = reads reader rooms t rest later

  by_answer :
      (rooms : List ℕ) (out : Outcome S)
      → (elim out.0 as (λ _. List ℕ) [
        | Poll.ready part ↦ part ++ reads reader rooms out.1 out.2 out.3
        | Poll.failed e ↦ []
        | Poll.pending ↦ reads reader rooms out.1 out.2 out.3
      ])
        ≡ rest_of rooms out
  unfolding rest_of
  by_answer rooms (Poll.ready part, t, rest, later) = refl
  by_answer rooms (Poll.failed e, t, rest, later) = refl
  by_answer rooms (Poll.pending, t, rest, later) = refl

  reads_next :
      (room : ℕ) (rooms : List ℕ) (s : S) (bytes : List ℕ) (turns : List Turn)
      → reads reader (room ∷ rooms) s bytes turns ≡ rest_of rooms (poll reader room s bytes turns)
  unfolding reads
  reads_next room rooms s bytes turns = by_answer rooms (poll reader room s bytes turns)

  after_call :
      (rooms bytes payload : List ℕ) (turns : List Turn) (out : Outcome S)
      → OutcomeKeeps Due bytes payload turns out
      → ((t : S) (rest left : List ℕ) (later : List Turn)
          → Due t rest left
          → Front left (reads reader rooms t rest later))
      → Front payload (rest_of rooms out)
  unfolding rest_of
  after_call rooms bytes payload turns (Poll.ready part, t, rest, later) ((left, e, d, n), spent)
        k =
      let (more, f) = k t rest left later d in
      (more, e ∙ ap (◌++◌ part) f ∙ sym (append_assoc part (reads reader rooms t rest later) more))
  after_call rooms bytes payload turns (Poll.failed x, t, rest, later) h k = (payload, refl)
  after_call rooms bytes payload turns (Poll.pending, t, rest, later) h k =
      k t rest payload later h.0

  -- Whatever the turns and the buffers, what the calls deliver is the front of what was due.
  pub reads-Front :
      (rooms : List ℕ) (s : S) (bytes payload : List ℕ) (turns : List Turn)
      → All (λ room. 0 < room) rooms
      → Due s bytes payload
      → Front payload (reads reader rooms s bytes turns)
  unfolding reads
  reads-Front [] s bytes payload turns r d = (payload, refl)
  reads-Front (room ∷ rooms) s bytes payload turns r d = rw (reads_next room rooms s bytes turns) (
      after_call rooms bytes payload turns (poll reader room s bytes turns)
        (poll_keeps room s bytes payload turns r.0 d)
        (λ t rest left later i. reads-Front rooms t rest left later r.1 i))

  whole_rest :
      (rooms bytes payload : List ℕ) (turns : List Turn) (out : Outcome S)
      → OutcomeKeeps Due bytes payload turns out
      → All Gives turns
      → length payload ≤ suc (length rooms)
      → length bytes + suc (length rooms) ≤ length turns
      → ((t : S) (rest left : List ℕ) (later : List Turn)
          → Due t rest left
          → All Gives later
          → length left ≤ length rooms
          → length rest + length rooms ≤ length later
          → reads reader rooms t rest later ≡ left)
      → rest_of rooms out ≡ payload
  unfolding rest_of
  whole_rest rooms bytes payload turns (Poll.ready part, t, rest, later) ((left, e, d, n), spent) g
        p h k =
      let (more, less) = spent g in
      let short : length left ≤ length rooms = shorter part left payload (length rooms) e n p in
      sym (e ∙ ap (◌++◌ part) (sym (k t rest left later d more short (omega (arith, less)))))
  whole_rest rooms bytes payload turns (Poll.failed x, t, rest, later) h g p b k = sym (h g)
  whole_rest rooms bytes payload turns (Poll.pending, t, rest, later) h g p b k =
      absurd (h.1 g (omega arith))

  -- With turns that give, as many as there are bytes and calls, and as many calls as bytes are due,
  -- the calls deliver exactly what was due.
  pub reads_whole :
      (rooms : List ℕ) (s : S) (bytes payload : List ℕ) (turns : List Turn)
      → All (λ room. 0 < room) rooms
      → Due s bytes payload
      → All Gives turns
      → length payload ≤ length rooms
      → length bytes + length rooms ≤ length turns
      → reads reader rooms s bytes turns ≡ payload
  unfolding reads
  reads_whole [] s bytes payload turns r d g p h = sym (length_zero payload p)
  reads_whole (room ∷ rooms) s bytes payload turns r d g p h =
      rw (reads_next room rooms s bytes turns) (
        whole_rest rooms bytes payload turns (poll reader room s bytes turns)
          (poll_keeps room s bytes payload turns r.0 d) g p h
          (λ t rest left later i j q b. reads_whole rooms t rest left later r.1 i j q b))

-- ===== src/Io/Steps.antt =====
-- What a step of a reader may do, and what a call made of such steps does.
use rust_clash.Common.{
  ℕ, zero, suc, ◌+◌, ◌≤◌, ◌<◌, ◌≡◌, refl, sym, ap, List, [], ◌∷◌, ◌++◌, arith, length, take, drop,
  length-take, take-append-drop, All, length-append,
}
use Prim.Native.Nat.{min}
use rust_clash.Io.{Poll, Turn, Next, Fed, Reader, Outcome, fed, take_turn}

abbrev pub Gives : Turn → Type 0
Gives (Turn.gives k) = Unit {0}
Gives Turn.waits = ⊥
Gives Turn.breaks = ⊥

at_end : (n : ℕ) (bytes : List ℕ) → 0 < n → length (take n bytes) ≡ 0 → drop n bytes ≡ []
at_end zero bytes p h = absurd (omega arith)
at_end (suc n) [] p h = refl
at_end (suc n) (b ∷ bytes) p h = absurd (omega arith)

-- `Due s bytes payload`: a stream in the state `s`, when `bytes` will arrive, has still to deliver
-- `payload`. Buffers of the caller have room.
module _ {S : Type 0} (Due : S → List ℕ → List ℕ → Type 0) where
  -- An answer `r` with the state `t`, when `payload` was due.
  abbrev pub Answers : List ℕ → List ℕ → Poll (List ℕ) → S → Type 0
  Answers bytes payload (Poll.ready part) t =
      (left : List ℕ) × (payload ≡ part ++ left) × Due t bytes left × (part ≡ [] → payload ≡ [])
  Answers bytes payload (Poll.failed e) t = payload ≡ []
  Answers bytes payload Poll.pending t = ⊥

  abbrev pub Feeds : List ℕ → List ℕ → List ℕ → Fed S → Type 0
  Feeds got bytes payload (Fed.done r t) = Answers bytes payload r t
  Feeds got bytes payload (Fed.again t) = Due t bytes payload × (0 < length got)

  -- No bytes come from the inner stream only at its end.
  abbrev pub Settles : (S → List ℕ → Fed S) → List ℕ → List ℕ → Next S → Type 0
  Settles feed bytes payload (Next.stop r t) = Answers bytes payload r t
  Settles feed bytes payload (Next.want cap t) =
      (0 < cap)
      × Due t bytes payload
      × ((got rest : List ℕ)
          → length got ≤ cap
          → (length got ≡ 0 → rest ≡ [])
          → bytes ≡ got ++ rest
          → Feeds got rest payload (feed t got))

  -- Each step of the reader keeps what is due.
  abbrev pub IsLawful : Reader S → Type 0
  IsLawful reader =
      (room : ℕ) (s : S) (bytes payload : List ℕ)
      → 0 < room
      → Due s bytes payload
      → Settles reader.feed bytes payload (reader.settle room s)

  -- With turns that give, more than there are bytes, no call waits, or fails when something is due;
  -- a call takes at most one turn more than bytes.
  abbrev pub OutcomeKeeps : List ℕ → List ℕ → List Turn → Outcome S → Type 0
  OutcomeKeeps bytes payload turns (Poll.ready part, t, rest, later) =
      Answers rest payload (Poll.ready part) t
      × (All Gives turns
          → All Gives later × (length turns + length rest ≤ suc (length later + length bytes)))
  OutcomeKeeps bytes payload turns (Poll.failed e, t, rest, later) = All Gives turns → payload ≡ []
  OutcomeKeeps bytes payload turns (Poll.pending, t, rest, later) =
      Due t rest payload × (All Gives turns → length bytes < length turns → ⊥)

  pub stops :
      (bytes rest payload : List ℕ) (r : Poll (List ℕ)) (t : S) (turns later : List Turn)
      → Answers rest payload r t
      → (All Gives turns
          → All Gives later × (length turns + length rest ≤ suc (length later + length bytes)))
      → OutcomeKeeps bytes payload turns (r, t, rest, later)
  stops bytes rest payload (Poll.ready part) t turns later h k = (h, k)
  stops bytes rest payload (Poll.failed e) t turns later h k = λ all. h
  stops bytes rest payload Poll.pending t turns later h k = absurd h

  -- A turn that gave `got` before.
  after_turn :
      (bytes got rest payload : List ℕ) (k : ℕ) (turns : List Turn) (out : Outcome S)
      → bytes ≡ got ++ rest
      → 0 < length got
      → OutcomeKeeps rest payload turns out
      → OutcomeKeeps bytes payload (Turn.gives k ∷ turns) out
  after_turn bytes got rest payload k turns (Poll.ready part, t, b, later) e p (h, spent) = (
    h,
    λ all.
        let (more, less) = spent all.1 in
        (more, omega (arith, less, length-append got rest, ap length e)),
  )
  after_turn bytes got rest payload k turns (Poll.failed x, t, b, later) e p never =
      λ all. never all.1
  after_turn bytes got rest payload k turns (Poll.pending, t, b, later) e p (h, never) =
      (h, λ all few. never all.1 (omega (arith, few, length-append got rest, ap length e)))

  feeds :
      (bytes got rest payload : List ℕ) (k : ℕ) (turns : List Turn) (loop : S → Outcome S)
      (f : Fed S)
      → bytes ≡ got ++ rest
      → Feeds got rest payload f
      → ((t : S) → Due t rest payload → OutcomeKeeps rest payload turns (loop t))
      → OutcomeKeeps bytes payload (Turn.gives k ∷ turns) (fed loop rest turns f)
  feeds bytes got rest payload k turns loop (Fed.done r t) e h l =
      stops bytes rest payload r t (Turn.gives k ∷ turns) turns h
        (λ all. (all.1, omega (arith, length-append got rest, ap length e)))
  feeds bytes got rest payload k turns loop (Fed.again t) e h l =
      after_turn bytes got rest payload k turns (loop t) e h.1 (l t h.0)

  pub turn_keeps :
      (s : S) (bytes payload : List ℕ) (turn : Turn) (turns : List Turn) (cap : ℕ)
      (loop : S → List ℕ → Outcome S) (feed : List ℕ → Fed S)
      → 0 < cap
      → Due s bytes payload
      → ((got rest : List ℕ)
          → length got ≤ cap
          → (length got ≡ 0 → rest ≡ [])
          → bytes ≡ got ++ rest
          → Feeds got rest payload (feed got))
      → ((t : S) (rest : List ℕ)
          → Due t rest payload
          → OutcomeKeeps rest payload turns (loop t rest))
      → OutcomeKeeps bytes payload (turn ∷ turns) (take_turn loop feed cap s bytes turns turn)
  turn_keeps s bytes payload (Turn.gives k) turns cap loop feed c d h l =
      let n = min (suc k) cap in
      let e = sym (take-append-drop n bytes) in
      feeds bytes (take n bytes) (drop n bytes) payload k turns (λ t. loop t (drop n bytes))
        (feed (take n bytes)) e
        (h (take n bytes) (drop n bytes) (omega (arith, length-take n bytes))
          (at_end n bytes (omega arith)) e)
        (λ t i. l t (drop n bytes) i)
  turn_keeps s bytes payload Turn.waits turns cap loop feed c d h l = (d, λ all few. absurd all.0)
  turn_keeps s bytes payload Turn.breaks turns cap loop feed c d h l = λ all. absurd all.0

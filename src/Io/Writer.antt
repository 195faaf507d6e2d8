-- ===== src/Io/Writer.antt =====
-- Asynchronous writing, as tokio's `AsyncWrite` has it: the loop of a `poll_write` over an inner
-- stream that takes as many bytes in a turn as it gives, waits, or fails.
pub mod Law
use rust_clash.Common.{ℕ, zero, suc, List, [], ◌∷◌, ◌++◌, length, take, drop}
use Prim.Native.Nat.{min}
use rust_clash.Io.{IoError, Poll, Turn}

-- What a stream does with the caller's bytes before it writes to the inner one: return, or write
-- these.
pub data Offer (S : Type 0) : Type 0 where
  answer : Poll ℕ → S → Offer S
  put : List ℕ → S → Offer S

-- What it does when some of them were taken: return, or go on.
pub data Took (S : Type 0) : Type 0 where
  accept : Poll ℕ → S → Took S
  more : S → Took S

pub record Writer (S : Type 0) : Type 0 where
  pub offer : S → List ℕ → Offer S
  pub took : S → List ℕ → ℕ → Took S

-- The answer, the state, what the inner stream took, and the turns that are left.
abbrev pub Wrote : Type 0 → Type 0
Wrote S = Poll ℕ × S × List ℕ × List Turn

module _ {S : Type 0} where
  abbrev pub behind : List ℕ → Wrote S → Wrote S
  behind part (r, s, wire, turns) = (r, s, part ++ wire, turns)

  abbrev pub sent : (S → Wrote S) → List ℕ → List Turn → Took S → Wrote S
  sent loop part turns (Took.accept r s) = (r, s, part, turns)
  sent loop part turns (Took.more s) = behind part (loop s)

  abbrev pub put_turn : (S → Wrote S) → (ℕ → Took S) → List ℕ → S → List Turn → Turn → Wrote S
  put_turn loop took part s turns (Turn.gives k) =
      let n = min (suc k) (length part) in sent loop (take n part) turns (took n)
  put_turn loop took part s turns Turn.waits = (Poll.pending, s, [], turns)
  put_turn loop took part s turns Turn.breaks = (Poll.failed IoError.inner, s, [], turns)

  -- What goes on after a call: the state, what the inner stream took, what is left of the buffer.
  abbrev pub continued : (S → List ℕ → S × List ℕ × List ℕ) → List ℕ → Wrote S → S × List ℕ × List ℕ
  continued loop buf (Poll.ready n, t, wire, turns) =
      let (u, rest, left) = loop t (drop n buf) in (u, wire ++ rest, left)
  continued loop buf (Poll.pending, t, wire, turns) =
      let (u, rest, left) = loop t buf in (u, wire ++ rest, left)
  continued loop buf (Poll.failed e, t, wire, turns) = (t, wire, buf)

module _ {S : Type 0} (writer : Writer S) where
  unfoldable pub poll_out : S → List ℕ → List Turn → Wrote S
  poll_out s buf [] = elim (writer.offer s buf) [
    | Offer.answer r t ↦ (r, t, [], [])
    | Offer.put part t ↦ (Poll.pending, t, [], [])
  ]
  poll_out s buf (turn ∷ turns) = elim (writer.offer s buf) [
    | Offer.answer r t ↦ (r, t, [], turn ∷ turns)
    | Offer.put part t ↦ put_turn (λ u. poll_out u buf turns) (writer.took t buf) part t turns turn
  ]

  -- `write_all` of tokio: a call for what is left of the buffer, with turns of its own, until
  -- nothing is left, and no more after a failure.
  unfoldable pub write_all : S → List ℕ → List (List Turn) → S × List ℕ × List ℕ
  unfolding poll_out
  write_all s [] supply = (s, [], [])
  write_all s (b ∷ buf) [] = (s, [], b ∷ buf)
  write_all s (b ∷ buf) (turns ∷ supply) =
      continued (λ t rest. write_all t rest supply) (b ∷ buf) (poll_out s (b ∷ buf) turns)

-- ===== src/Io.antt =====
-- Asynchronous reading, as tokio's `AsyncRead` has it. The inner stream is the bytes that will
-- arrive, after which it ends, and the turns in which its `poll_read` lets them through: at most so
-- many, none yet, or an error. The end of the list of turns waits. A panic is the error `panicked`.
pub mod Steps
pub mod Reads
pub mod Writer
use rust_clash.Common.{ℕ, zero, suc, ◌+◌, List, [], ◌∷◌, ◌++◌, take, drop}
use Prim.Native.Nat.{min}

pub data IoError : Type 0 where
  unexpected_eof invalid_data write_zero other inner panicked : IoError

pub data Poll (A : Type 0) : Type 0 where
  ready : A → Poll A
  failed : IoError → Poll A
  pending : Poll A

-- `gives k` lets `k + 1` bytes through, when there are so many and the buffer has room for them.
pub data Turn : Type 0 where
  gives : ℕ → Turn
  waits breaks : Turn

-- What a stream does before it reads the inner one: return, or want at most so many bytes.
pub data Next (S : Type 0) : Type 0 where
  stop : Poll (List ℕ) → S → Next S
  want : ℕ → S → Next S

-- What it does with them, none of them at the end of the inner stream: return, or go on.
pub data Fed (S : Type 0) : Type 0 where
  done : Poll (List ℕ) → S → Fed S
  again : S → Fed S

-- The loop of a `poll_read`: up to the read of the inner stream, with the room in the buffer of the
-- caller, and from there on.
pub record Reader (S : Type 0) : Type 0 where
  pub settle : ℕ → S → Next S
  pub feed : S → List ℕ → Fed S

-- The answer with the bytes put into the caller's buffer, the state, and what is left of the inner
-- stream.
abbrev pub Outcome : Type 0 → Type 0
Outcome S = Poll (List ℕ) × S × List ℕ × List Turn

module _ {S : Type 0} where
  abbrev pub fed : (S → Outcome S) → List ℕ → List Turn → Fed S → Outcome S
  fed loop bytes turns (Fed.done r s) = (r, s, bytes, turns)
  fed loop bytes turns (Fed.again s) = loop s

  abbrev pub take_turn :
      (S → List ℕ → Outcome S) → (List ℕ → Fed S) → ℕ → S → List ℕ → List Turn → Turn → Outcome S
  take_turn loop feed cap s bytes turns (Turn.gives k) =
      let n = min (suc k) cap in
      fed (λ t. loop t (drop n bytes)) (drop n bytes) turns (feed (take n bytes))
  take_turn loop feed cap s bytes turns Turn.waits = (Poll.pending, s, bytes, turns)
  take_turn loop feed cap s bytes turns Turn.breaks = (Poll.failed IoError.inner, s, bytes, turns)

module _ {S : Type 0} (reader : Reader S) where
  unfoldable pub poll : ℕ → S → List ℕ → List Turn → Outcome S
  poll room s bytes [] = elim (reader.settle room s) [
    | Next.stop r t ↦ (r, t, bytes, [])
    | Next.want cap t ↦ (Poll.pending, t, bytes, [])
  ]
  poll room s bytes (turn ∷ turns) = elim (reader.settle room s) [
    | Next.stop r t ↦ (r, t, bytes, turn ∷ turns)
    | Next.want cap t ↦
        take_turn (λ u rest. poll room u rest turns) (reader.feed t) cap t bytes turns turn
  ]

  -- One call after another, into buffers with room for `rooms`, until one fails: what they put
  -- there.
  unfoldable pub reads : List ℕ → S → List ℕ → List Turn → List ℕ
  unfolding poll
  reads [] s bytes turns = []
  reads (room ∷ rooms) s bytes turns =
      let (r, t, rest, later) = poll room s bytes turns in
      elim r [
        | Poll.ready part ↦ part ++ reads rooms t rest later
        | Poll.failed e ↦ []
        | Poll.pending ↦ reads rooms t rest later
      ]

-- ===== src/Stack/Tokens.antt =====
-- crates/clash-tun/src/stack.rs, lines 110 to 127 and 285 to 312: the generation and the relay
-- tokens, by which a switch of the node ends the connections made before it. A `CancellationToken`
-- is a number, and a child token is cancelled when it is or when its parent, the token of the
-- stack, is. The statements of `bump_generation` and `request_stop` and the two loads of the
-- accept loop are steps of their own, since they run in different threads; several bumps may be
-- under way at once. The test of `handle_accepted` is made in one state.
use rust_clash.Common.{
  ℕ, ◌+◌, ◌%◌, ◌^◌, ◌≡◌, Bool, true, false, not, ◌||◌, Option, none, some, List, [], ◌∷◌, ◌==◌,
  contains, nat_eq, if◌then◌else◌,
}

-- What the accept loop loads for a connection.
pub record Accepted : Type 0 where
  pub generation : ℕ
  pub relay : ℕ

-- `relay` is the current token, `next` the number of the next one, `replaced` are those that a bump
-- has taken out and not cancelled yet, `cancelled` those that were, and `stopped` says whether the
-- token of the stack was. `loading` is the generation that the accept loop has loaded for a
-- connection whose relay it has not, and `accepted` are the connections that it has handed over.
pub record Control : Type 0 where
  pub generation : ℕ
  pub relay : ℕ
  pub next : ℕ
  pub replaced : List ℕ
  pub cancelled : List ℕ
  pub stopped : Bool
  pub closed : Bool
  pub loading : Option ℕ
  pub accepted : List Accepted

unfoldable pub start_control : Control
start_control = record {
  generation = 0;
  relay = 0;
  next = 1;
  replaced = [];
  cancelled = [];
  stopped = false;
  closed = false;
  loading = none;
  accepted = [];
}

-- `generation.fetch_add(1)`.
unfoldable pub raise : Control → Control
raise c = record c { generation = (c.generation + 1) % 2 ^ 64 }

-- The new child token takes the place of the old one.
unfoldable pub swap : Control → Control
swap c = record c { relay = c.next; next = c.next + 1; replaced = c.relay ∷ c.replaced }

unfoldable pub without : ℕ → List ℕ → List ℕ
without t [] = []
without t (x ∷ l) = let rest = without t l in if x == t then rest else x ∷ rest

-- `old.cancel()`, of the token that the bump has taken out.
unfoldable pub cancel_old : ℕ → Control → Control
unfolding without
cancel_old old c = record c { replaced = without old c.replaced; cancelled = old ∷ c.cancelled }

unfoldable pub bump_generation : Control → Control
unfolding raise swap cancel_old
bump_generation c = cancel_old c.relay (swap (raise c))

-- `closed.store(true)`, `cancel.cancel()` and `relay_cancel.lock().cancel()`.
unfoldable pub close : Control → Control
close c = record c { closed = true }

unfoldable pub cancel_stack : Control → Control
cancel_stack c = record c { stopped = true }

unfoldable pub cancel_relay : Control → Control
cancel_relay c = record c { cancelled = c.relay ∷ c.cancelled }

unfoldable pub request_stop : Control → Control
unfolding close cancel_stack cancel_relay
request_stop c = cancel_relay (cancel_stack (close c))

-- The two loads of the accept loop.
unfoldable pub load_generation : Control → Control
load_generation c = record c { loading = some c.generation }

unfoldable pub load_relay : ℕ → Control → Control
load_relay generation c = record c {
  loading = none;
  accepted = record { generation = generation; relay = c.relay } ∷ c.accepted;
}

unfoldable pub is_cancelled : ℕ → Control → Bool
unfolding contains
is_cancelled token c = c.stopped || contains token c.cancelled

-- The test that `handle_accepted` makes.
unfoldable pub is_stale : Accepted → Control → Bool
unfolding is_cancelled
is_stale a c = not (a.generation == c.generation) || is_cancelled a.relay c

-- A statement of any thread. The last of request_stop stands behind the one that cancels the token
-- of the stack, which is never taken back.
pub data Step (c : Control) : Control → Type 0 where
  raises : Step c (raise c)
  swaps : Step c (swap c)
  cancels : (old : ℕ) → contains old c.replaced ≡ true → Step c (cancel_old old c)
  closes : Step c (close c)
  stops : Step c (cancel_stack c)
  ends_relay : c.stopped ≡ true → Step c (cancel_relay c)
  loads_generation : Step c (load_generation c)
  loads_relay : (generation : ℕ) → c.loading ≡ some generation → Step c (load_relay generation c)

pub data Reach (c : Control) : Control → Type 0 where
  here : Reach c c
  next : {d e : Control} → Reach c d → Step d e → Reach c e

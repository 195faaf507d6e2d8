-- ===== src/Stack/Control.antt =====
-- crates/clash-tun/src/stack.rs, lines 110 to 127 and 285 to 312: what the tokens of the relays
-- say of the connections, over the interleavings of the threads.
use rust_clash.Common.{
  ℕ, zero, suc, ◌<◌, ◌≤◌, ◌≡◌, inl, inr, refl, sym, ◌∙◌, ap, Bool, true, false, not, ◌||◌, ◌&&◌,
  some, List, [], ◌∷◌, arith, ◌==◌, contains, nat_eq, Bool-cases, ==_self, get_elem?,
}
use rust_clash.Stack.Tokens.{
  Accepted, Control, start_control, raise, swap, without, cancel_old, bump_generation, close,
  cancel_stack, cancel_relay, request_stop, load_generation, load_relay, is_cancelled, is_stale,
  Step, raises, swaps, cancels, closes, stops, ends_relay, loads_generation, loads_relay, Reach,
  here, next,
}

-- The tokens that a bump has taken out or a thread has cancelled.
abbrev pub is_old : ℕ → Control → Bool
is_old t c = contains t c.replaced || contains t c.cancelled

-- Every token made so far is the current one, or waits to be cancelled, or is cancelled; before the
-- stack stops the current one is neither; and a connection that was handed over has one of them.
pub record IsTracked (c : Control) : Type 0 where
  pub current : c.relay < c.next
  pub others : (t : ℕ) → t < c.next → (t == c.relay || is_old t c) ≡ true
  pub made : (t : ℕ) → is_old t c ≡ true → t < c.next
  pub live : c.stopped ≡ false → is_old c.relay c ≡ false
  pub loaded : (i : ℕ) (a : Accepted) → get_elem? c.accepted i ≡ some a → a.relay < c.next

start-IsTracked : IsTracked start_control
unfolding start_control contains
start-IsTracked = record {
  current = omega arith;
  others = λ t h. ground arith;
  made = λ t h. cc;
  live = λ h. refl;
  loaded = λ i a h. cc;
}

swap-IsTracked : (c : Control) → IsTracked c → IsTracked (swap c)
unfolding swap contains
swap-IsTracked c v = record {
  current = omega arith;
  others = λ t h. let old = v.others t in ground arith;
  made = λ t h. let old = v.made t in let now = v.current in ground arith;
  live = λ h. let old = v.made c.next in let now = v.current in ground arith;
  loaded = λ i a h. omega (arith, v.loaded i a h);
}

contains-without :
    (u t : ℕ) (l : List ℕ) → contains u (without t l) ≡ (contains u l && not (u == t))
unfolding contains without
contains-without u t [] = refl
contains-without u t (x ∷ l) =
    let rest = contains-without u t l in
    elim (Bool-cases (x == t)) [
      | inl e ↦ rw e (ground (arith, rest))
      | inr e ↦ rw e (ground (arith, rest))
    ]

module _ (c : Control) (old : ℕ) (taken : contains old c.replaced ≡ true) where
  cancelled_old : (t : ℕ) → is_old t (cancel_old old c) ≡ is_old t c
  unfolding cancel_old contains
  cancelled_old t = rw (contains-without t old c.replaced) (elim (Bool-cases (t == old)) [
    | inl e ↦
        let same : t ≡ old = ground arith in
        let there : contains t c.replaced ≡ true = rw same taken in ground arith
    | inr e ↦ ground arith
  ])

  cancel_old-IsTracked : IsTracked c → IsTracked (cancel_old old c)
  unfolding cancel_old
  cancel_old-IsTracked v = record {
    current = v.current;
    others = λ t h. rw (cancelled_old t) (v.others t h);
    made = λ t h. v.made t (sym (cancelled_old t) ∙ h);
    live = λ h. cancelled_old c.relay ∙ v.live h;
    loaded = v.loaded;
  }

cancel_relay-IsTracked : (c : Control) → c.stopped ≡ true → IsTracked c → IsTracked (cancel_relay c)
unfolding cancel_relay contains
cancel_relay-IsTracked c stopped v = record {
  current = v.current;
  others = λ t h. let old = v.others t h in ground arith;
  made = λ t h. let old = v.made t in let now = v.current in ground arith;
  live = λ h. cc;
  loaded = v.loaded;
}

handed_over :
    (generation : ℕ) (c : Control)
    → IsTracked c
    → (i : ℕ) (a : Accepted) → get_elem? (load_relay generation c).accepted i ≡ some a
    → a.relay < c.next
unfolding load_relay
handed_over generation c v zero a h =
    let fresh : Accepted = record { generation = generation; relay = c.relay } in
    let same : fresh ≡ a = cc in omega (arith, ap (λ x. x.relay) same, v.current)
handed_over generation c v (suc i) a h = v.loaded i a h

Step-IsTracked : {c d : Control} → Step c d → IsTracked c → IsTracked d
unfolding raise close cancel_stack load_generation load_relay
Step-IsTracked {c} raises v = record {
  current = v.current;
  others = v.others;
  made = v.made;
  live = v.live;
  loaded = v.loaded;
}
Step-IsTracked {c} swaps v = swap-IsTracked c v
Step-IsTracked {c} (cancels old taken) v = cancel_old-IsTracked c old taken v
Step-IsTracked {c} closes v = record {
  current = v.current;
  others = v.others;
  made = v.made;
  live = v.live;
  loaded = v.loaded;
}
Step-IsTracked {c} stops v = record {
  current = v.current;
  others = v.others;
  made = v.made;
  live = λ h. cc;
  loaded = v.loaded;
}
Step-IsTracked {c} (ends_relay stopped) v = cancel_relay-IsTracked c stopped v
Step-IsTracked {c} loads_generation v = record {
  current = v.current;
  others = v.others;
  made = v.made;
  live = v.live;
  loaded = v.loaded;
}
Step-IsTracked {c} (loads_relay generation e) v = record {
  current = v.current;
  others = v.others;
  made = v.made;
  live = v.live;
  loaded = handed_over generation c v;
}

pub Reach-IsTracked : {c d : Control} → Reach c d → IsTracked c → IsTracked d
Reach-IsTracked here v = v
Reach-IsTracked (next r s) v = Step-IsTracked s (Reach-IsTracked r v)

-- No step brings an old token back.
Step_grows : {c d : Control} → IsTracked c → Step c d → c.relay ≤ d.relay
unfolding raise swap cancel_old close cancel_stack cancel_relay load_generation load_relay
Step_grows {c} v raises = omega arith
Step_grows {c} v swaps = omega (arith, v.current)
Step_grows {c} v (cancels old taken) = omega arith
Step_grows {c} v closes = omega arith
Step_grows {c} v stops = omega arith
Step_grows {c} v (ends_relay stopped) = omega arith
Step_grows {c} v loads_generation = omega arith
Step_grows {c} v (loads_relay generation e) = omega arith

Reach_grows : {c d : Control} → IsTracked c → Reach c d → c.relay ≤ d.relay
Reach_grows v here = omega arith
Reach_grows v (next r s) = omega (arith, Reach_grows v r, Step_grows (Reach-IsTracked r v) s)

tracked_stale :
    (d : Control) (a : Accepted)
    → IsTracked d
    → a.relay < d.relay
    → contains a.relay d.replaced ≡ false
    → is_stale a d ≡ true
unfolding is_stale is_cancelled
tracked_stale d a v h gone = let old = v.others a.relay (omega (arith, v.current)) in ground arith

tracked_live :
    (c : Control) (b : Accepted)
    → IsTracked c
    → b.generation ≡ c.generation
    → b.relay ≡ c.relay
    → is_stale b c ≡ c.stopped
unfolding is_stale is_cancelled
tracked_live c b v g r =
    rw (g, r)
      (elim (Bool-cases c.stopped) [
        | inl e ↦ rw e (ground (arith, ==_self c.generation))
        | inr e ↦ let live = v.live e in rw e (ground (arith, ==_self c.generation))
      ])

-- A call of bump_generation or of request_stop is steps, one for each statement.
bump_generation-Reach : (c : Control) → Reach c (bump_generation c)
unfolding bump_generation raise swap contains
bump_generation-Reach c = next (next (next here raises) swaps) (cancels c.relay (ground arith))

request_stop-Reach : (c : Control) → Reach c (request_stop c)
unfolding request_stop cancel_stack
request_stop-Reach c = next (next (next here closes) stops) (ends_relay refl)

-- Over any interleaving of the statements of bumps and stops and of the loads of the accept loop:
-- a connection that was handed over in a state reached from the start is stale in every state
-- after a later swap of the relay by a bump, unless the bump that took out its token is still to
-- cancel it; and there a connection with the generation and the relay of that state is stale
-- exactly when the token of the stack is cancelled.
pub bump_generation_ends :
    {c d : Control} (i : ℕ) (a b : Accepted)
    → Reach start_control c
    → get_elem? c.accepted i ≡ some a
    → Reach (swap c) d
    → contains a.relay d.replaced ≡ false
    → b.generation ≡ d.generation
    → b.relay ≡ d.relay
    → (is_stale a d ≡ true) × (is_stale b d ≡ d.stopped)
unfolding swap
bump_generation_ends {c} {d} i a b r there more gone g relay =
    let v = Reach-IsTracked r start-IsTracked in
    let after = swap-IsTracked c v in
    let w = Reach-IsTracked more after in
    (
      tracked_stale d a w (omega (arith, Reach_grows after more, v.loaded i a there)) gone,
      tracked_live d b w g relay,
    )

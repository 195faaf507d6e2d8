-- ===== src/Io/Writer/Law.antt =====
-- When every step of a writer keeps the account of what it sent and accepted, so does `write_all`;
-- and it accepts all, when the inner stream takes bytes at all.
use rust_clash.Common.{
  ℕ, suc, ◌≤◌, ◌<◌, ◌≡◌, refl, ◌∙◌, ap, List, [], ◌∷◌, ◌++◌, arith, length, take, drop, length-drop,
  take-append-drop, All,
}
use Prim.Native.Nat.{min}
use mathlib.Core.List.{append_assoc, append-nil}
use rust_clash.Io.{Poll, Turn}
use rust_clash.Io.Steps.{Gives}
use rust_clash.Io.Writer.{
  Offer, Took, Writer, Wrote, sent, put_turn, poll_out, continued, write_all,
}

-- `Account s out taken rest`: the stream in the state `s` has put `out` on the inner stream, has
-- accepted `taken` of the caller's bytes, and the caller has `rest` left. `cost` bounds the bytes
-- that go out before more are accepted.
module _ {S : Type 0} (Account : S → List ℕ → List ℕ → List ℕ → Type 0)
    (cost : S → List ℕ → ℕ) where
  abbrev pub Accepts : List ℕ → List ℕ → List ℕ → Poll ℕ → S → Type 0
  Accepts out taken rest (Poll.ready n) t =
      (0 < n) × Account t out (taken ++ take n rest) (drop n rest)
  Accepts out taken rest (Poll.failed e) t = ⊥
  Accepts out taken rest Poll.pending t = ⊥

  abbrev pub Takes : List ℕ → List ℕ → List ℕ → ℕ → Took S → Type 0
  Takes out taken rest m (Took.accept r u) = Accepts out taken rest r u
  Takes out taken rest m (Took.more u) = Account u out taken rest × (cost u rest < m)

  abbrev pub Offers : (S → List ℕ → ℕ → Took S) → List ℕ → List ℕ → List ℕ → ℕ → Offer S → Type 0
  Offers took out taken rest m (Offer.answer r t) = Accepts out taken rest r t
  Offers took out taken rest m (Offer.put part t) =
      (0 < length part)
      × Account t out taken rest
      × ((n : ℕ)
          → 0 < n
          → n ≤ length part
          → Takes (out ++ take n part) taken rest m (took t rest n))

  -- Each step keeps the account, of a buffer that is not empty, and costs something.
  abbrev pub IsHonest : Writer S → Type 0
  IsHonest writer =
      (s : S) (out taken rest : List ℕ)
      → 0 < length rest
      → Account s out taken rest
      → Offers writer.took out taken rest (cost s rest) (writer.offer s rest)

  abbrev pub WroteKeeps : List ℕ → List ℕ → List ℕ → ℕ → List Turn → Wrote S → Type 0
  WroteKeeps out taken rest m turns (Poll.ready n, t, wire, later) =
      Accepts (out ++ wire) taken rest (Poll.ready n) t
  WroteKeeps out taken rest m turns (Poll.failed e, t, wire, later) =
      Account t (out ++ wire) taken rest × (All Gives turns → ⊥)
  WroteKeeps out taken rest m turns (Poll.pending, t, wire, later) =
      Account t (out ++ wire) taken rest × (All Gives turns → m < length turns → ⊥)

  answers :
      (out taken rest : List ℕ) (m : ℕ) (r : Poll ℕ) (t : S) (wire : List ℕ)
      (turns later : List Turn)
      → Accepts (out ++ wire) taken rest r t
      → WroteKeeps out taken rest m turns (r, t, wire, later)
  answers out taken rest m (Poll.ready n) t wire turns later h = h
  answers out taken rest m (Poll.failed e) t wire turns later h = absurd h
  answers out taken rest m Poll.pending t wire turns later h = absurd h

  same_wire :
      (s : S) (out taken rest : List ℕ)
      → Account s out taken rest
      → Account s (out ++ []) taken rest
  same_wire s out taken rest a = rw (append-nil out) a

  goes_on :
      (out part taken rest : List ℕ) (k m l : ℕ) (turns : List Turn) (w : Wrote S)
      → l < m
      → WroteKeeps (out ++ part) taken rest l turns w
      → WroteKeeps out taken rest m (Turn.gives k ∷ turns) (w.0, w.1, part ++ w.2, w.3)
  goes_on out part taken rest k m l turns (Poll.ready n, t, wire, later) c h =
      (h.0, rw (← append_assoc out part wire) h.1)
  goes_on out part taken rest k m l turns (Poll.failed e, t, wire, later) c (a, never) =
      (rw (← append_assoc out part wire) a, λ all. never all.1)
  goes_on out part taken rest k m l turns (Poll.pending, t, wire, later) c (a, never) =
      (rw (← append_assoc out part wire) a, λ all few. never all.1 (omega (arith, few, c)))

  after_took :
      (out part taken rest : List ℕ) (k m : ℕ) (turns : List Turn) (loop : S → Wrote S)
      (took : Took S)
      → Takes (out ++ part) taken rest m took
      → ((u : S)
          → Account u (out ++ part) taken rest
          → WroteKeeps (out ++ part) taken rest (cost u rest) turns (loop u))
      → WroteKeeps out taken rest m (Turn.gives k ∷ turns) (sent loop part turns took)
  after_took out part taken rest k m turns loop (Took.accept r u) h l =
      answers out taken rest m r u part (Turn.gives k ∷ turns) turns h
  after_took out part taken rest k m turns loop (Took.more u) h l =
      goes_on out part taken rest k m (cost u rest) turns (loop u) h.1 (l u h.0)

  module _ (writer : Writer S) (honest : IsHonest writer) where
    at_put :
        (part : List ℕ) (t : S) (out taken rest : List ℕ) (m : ℕ) (turn : Turn) (turns : List Turn)
        (loop : S → Wrote S)
        → Offers writer.took out taken rest m (Offer.put part t)
        → ((u : S) (o : List ℕ)
            → Account u o taken rest
            → WroteKeeps o taken rest (cost u rest) turns (loop u))
        → WroteKeeps out taken rest m
            (turn ∷ turns)
            (put_turn loop (writer.took t rest) part t turns turn)
    at_put part t out taken rest m (Turn.gives k) turns loop (p, a, h) l =
        let n = min (suc k) (length part) in
        after_took out (take n part) taken rest k m turns loop (writer.took t rest n)
          (h n (omega arith) (omega arith)) (λ u i. l u (out ++ take n part) i)
    at_put part t out taken rest m Turn.waits turns loop (p, a, h) l =
        (same_wire t out taken rest a, λ all few. absurd all.0)
    at_put part t out taken rest m Turn.breaks turns loop (p, a, h) l =
        (same_wire t out taken rest a, λ all. absurd all.0)

    at_offer :
        (offer : Offer S) (out taken rest : List ℕ) (m : ℕ) (turn : Turn) (turns : List Turn)
        (loop : S → Wrote S)
        → Offers writer.took out taken rest m offer
        → ((u : S) (o : List ℕ)
            → Account u o taken rest
            → WroteKeeps o taken rest (cost u rest) turns (loop u))
        → WroteKeeps out taken rest m (turn ∷ turns) (elim offer as (λ _. Wrote S) [
          | Offer.answer r t ↦ (r, t, [], turn ∷ turns)
          | Offer.put part t ↦ put_turn loop (writer.took t rest) part t turns turn
        ])
    at_offer (Offer.answer r t) out taken rest m turn turns loop h l =
        answers out taken rest m r t [] (turn ∷ turns) (turn ∷ turns) (rw (append-nil out) h)
    at_offer (Offer.put part t) out taken rest m turn turns loop h l =
        at_put part t out taken rest m turn turns loop h l

    no_turn :
        (offer : Offer S) (out taken rest : List ℕ) (m : ℕ)
        → Offers writer.took out taken rest m offer
        → WroteKeeps out taken rest m [] (elim offer as (λ _. Wrote S) [
          | Offer.answer r t ↦ (r, t, [], [])
          | Offer.put part t ↦ (Poll.pending, t, [], [])
        ])
    no_turn (Offer.answer r t) out taken rest m h =
        answers out taken rest m r t [] [] [] (rw (append-nil out) h)
    no_turn (Offer.put part t) out taken rest m (p, a, h) =
        (same_wire t out taken rest a, λ all few. omega arith)

    pub poll_out_keeps :
        (s : S) (out taken rest : List ℕ) (turns : List Turn)
        → 0 < length rest
        → Account s out taken rest
        → WroteKeeps out taken rest (cost s rest) turns (poll_out writer s rest turns)
    unfolding poll_out
    poll_out_keeps s out taken rest [] p a =
        no_turn (writer.offer s rest) out taken rest (cost s rest) (honest s out taken rest p a)
    poll_out_keeps s out taken rest (turn ∷ turns) p a =
        at_offer (writer.offer s rest) out taken rest (cost s rest) turn turns
          (λ u. poll_out writer u rest turns) (honest s out taken rest p a)
          (λ u o i. poll_out_keeps u o taken rest turns p i)

    -- What `write_all` returns: an account of the whole buffer.
    abbrev pub Accounts : List ℕ → List ℕ → S × List ℕ × List ℕ → Type 0
    Accounts out whole (t, wire, left) =
        (taken : List ℕ) × Account t (out ++ wire) taken left × (whole ≡ taken ++ left)

    behind_wire :
        (out wire whole : List ℕ) (r : S × List ℕ × List ℕ)
        → Accounts (out ++ wire) whole r
        → Accounts out whole (r.0, wire ++ r.1, r.2)
    behind_wire out wire whole (t, more, left) (taken, a, e) =
        (taken, rw (← append_assoc out wire more) a, e)

    after_call :
        (out taken rest : List ℕ) (m : ℕ) (turns : List Turn) (w : Wrote S)
        (loop : S → List ℕ → S × List ℕ × List ℕ)
        → WroteKeeps out taken rest m turns w
        → ((u : S) (o back left : List ℕ)
            → Account u o back left
            → Accounts o (back ++ left) (loop u left))
        → Accounts out (taken ++ rest) (continued loop rest w)
    after_call out taken rest m turns (Poll.ready n, t, wire, later) loop (p, a) l =
        let all : (taken ++ take n rest) ++ drop n rest ≡ taken ++ rest =
          append_assoc taken (take n rest) (drop n rest)
          ∙ ap (λ r. taken ++ r) (take-append-drop n rest) in
        behind_wire out wire (taken ++ rest) (loop t (drop n rest))
          (rw all at (l t (out ++ wire) (taken ++ take n rest) (drop n rest) a))
    after_call out taken rest m turns (Poll.failed e, t, wire, later) loop (a, never) l =
        (taken, a, refl)
    after_call out taken rest m turns (Poll.pending, t, wire, later) loop (a, never) l =
        behind_wire out wire (taken ++ rest) (loop t rest) (l t (out ++ wire) taken rest a)

    pub write_all_keeps :
        (s : S) (out taken rest : List ℕ) (supply : List (List Turn))
        → Account s out taken rest
        → Accounts out (taken ++ rest) (write_all writer s rest supply)
    unfolding write_all
    write_all_keeps s out taken [] supply a = (taken, same_wire s out taken [] a, refl)
    write_all_keeps s out taken (b ∷ rest) [] a = (taken, same_wire s out taken (b ∷ rest) a, refl)
    write_all_keeps s out taken (b ∷ rest) (turns ∷ supply) a =
        after_call out taken (b ∷ rest) (cost s (b ∷ rest)) turns
          (poll_out writer s (b ∷ rest) turns) (λ t r. write_all writer t r supply)
          (poll_out_keeps s out taken (b ∷ rest) turns (omega arith) a)
          (λ u o back left i. write_all_keeps u o back left supply i)

    nothing_left :
        (out taken rest : List ℕ) (m : ℕ) (turns : List Turn) (w : Wrote S)
        (loop : S → List ℕ → S × List ℕ × List ℕ)
        → WroteKeeps out taken rest m turns w
        → All Gives turns
        → m < length turns
        → 0 < length rest
        → ((u : S) (o back left : List ℕ)
            → Account u o back left
            → length left < length rest
            → (loop u left).2 ≡ [])
        → (continued loop rest w).2 ≡ []
    nothing_left out taken rest m turns (Poll.ready n, t, wire, later) loop (p, a) g few r l =
        l t (out ++ wire) (taken ++ take n rest) (drop n rest) a (omega (arith, length-drop n rest))
    nothing_left out taken rest m turns (Poll.failed e, t, wire, later) loop (a, never) g few r l =
        absurd (never g)
    nothing_left out taken rest m turns (Poll.pending, t, wire, later) loop (a, never) g few r l =
        absurd (never g few)

    -- With turns that give, for each call more than any step costs, and as many calls as bytes,
    -- nothing of the buffer is left.
    pub write_all_whole :
        (bound : ℕ) (s : S) (out taken rest : List ℕ) (supply : List (List Turn))
        → ((t : S) (o back left : List ℕ)
            → Account t o back left
            → length left ≤ length rest
            → cost t left ≤ bound)
        → All (λ turns. All Gives turns × (bound < length turns)) supply
        → Account s out taken rest
        → length rest ≤ length supply
        → (write_all writer s rest supply).2 ≡ []
    unfolding write_all
    write_all_whole bound s out taken [] supply c g a few = refl
    write_all_whole bound s out taken (b ∷ rest) [] c g a few = absurd (omega arith)
    write_all_whole bound s out taken (b ∷ rest) (turns ∷ supply) c g a few =
        nothing_left out taken (b ∷ rest) (cost s (b ∷ rest)) turns
          (poll_out writer s (b ∷ rest) turns) (λ t r. write_all writer t r supply)
          (poll_out_keeps s out taken (b ∷ rest) turns (omega arith) a) g.0.0
          (omega (arith, c s out taken (b ∷ rest) a (omega arith), g.0.1)) (omega arith)
          (λ u o back left i less.
            write_all_whole bound u o back left supply (λ t p q r j k. c t p q r j (omega arith))
              g.1 i (omega arith))

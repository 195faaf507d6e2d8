-- ===== src/Vision/Due.antt =====
-- crates/clash-proxynet/src/vision.rs: what is due in each state of the reader, and that a read of
-- the session keeps it.
use rust_clash.Common.{
  ℕ, ◌+◌, ◌-◌, ◌<◌, ◌≡◌, inl, inr, refl, sym, ◌∙◌, ap, ◌&&◌, none, List, [], ◌∷◌, ◌++◌, arith,
  length, All, leb, ◌==◌, Bool-cases, nat_eq, list_eq,
}
use mathlib.Core.Path.{subst}
use mathlib.Core.List.{append_assoc}
use Prim.Native.Nat.{min}
use rust_clash.Text.{is_empty}
use rust_clash.Io.{Next}
use rust_clash.Io.Steps.{Feeds, Settles}
use rust_clash.Vision.{VisionRead, Mode, cmd_continue, max_frame, compact, fill_from_session, feed}
use rust_clash.Vision.Frames.{Frames, Ending, wire_of, carried, IsFrame, IsEnding, Behind}

abbrev pub state : Mode → ℕ → List ℕ → ℕ → ℕ → ℕ → ℕ → VisionRead
state mode start buffered command content padding empty = record {
  mode = mode;
  start = start;
  buffered = buffered;
  command = command;
  remaining_content = content;
  remaining_padding = padding;
  padding_only = empty;
  spliced = none;
}

-- The buffer is moved when there is no room behind it.
compact_shape :
    (s : VisionRead)
    → length s.buffered < 21
    → (start : ℕ) × (compact 1 s ≡ record s { start = start })
      × (start + length s.buffered < max_frame)
unfolding compact
compact_shape s few = elim (Bool-cases (is_empty s.buffered)) [
  | inl e ↦ rw e (0, refl, omega arith)
  | inr e ↦ rw e (elim (Bool-cases (leb (s.start + length s.buffered + 1) max_frame)) [
    | inl f ↦ rw f (s.start, refl, ground arith)
    | inr f ↦ rw f (0, refl, omega arith)
  ])
]

module _ (uuid : List ℕ) where
  abbrev pub Due : VisionRead → List ℕ → List ℕ → Type 0
  Due s bytes payload = elim s.mode [
    | Mode.undecided ↦
        (fs : Frames) × (end : Ending) × All IsFrame fs
        × IsEnding end
        × (0 < length (wire_of fs end))
        × (s.buffered ++ bytes ≡ uuid ++ wire_of fs end)
        × (payload ≡ carried fs end)
        × (s.command ≡ cmd_continue)
        × (s.remaining_content ≡ 0)
        × (s.remaining_padding ≡ 0)
        × (s.spliced ≡ none)
    | Mode.framed ↦
        (content padding wire rest : List ℕ) × (length content ≡ s.remaining_content)
        × (length padding ≡ s.remaining_padding)
        × (s.buffered ++ bytes ≡ content ++ (padding ++ wire))
        × (payload ≡ content ++ rest)
        × Behind s.command wire rest
        × (s.spliced ≡ none)
    | Mode.raw ↦ (s.buffered ++ bytes ≡ payload) × (s.spliced ≡ none)
  ]

  feed_undecided :
      (start : ℕ) (buffered : List ℕ) (c r p e : ℕ) (got bytes rest payload : List ℕ)
      → Due (state Mode.undecided start buffered c r p e) bytes payload
      → (bytes ≡ [] → ⊥)
      → (length got ≡ 0 → rest ≡ [])
      → bytes ≡ got ++ rest
      → Feeds Due got rest payload (feed (state Mode.undecided start buffered c r p e) got)
  unfolding feed
  feed_undecided start buffered c r p e [] bytes rest payload d never gone cut =
      absurd (never (cut ∙ gone refl))
  feed_undecided start buffered c r p e (g ∷ got) bytes rest payload
        (fs, end, all, ok, pos, eq, q, cc0, r0, p0, s0) never gone cut =
      (
        (
          fs,
          end,
          all,
          ok,
          pos,
          append_assoc buffered (g ∷ got) rest ∙ ap (λ b. buffered ++ b) (sym cut) ∙ eq,
          q,
          cc0,
          r0,
          p0,
          s0,
        ),
        omega arith,
      )

  feed_framed :
      (start : ℕ) (buffered : List ℕ) (c r p e : ℕ) (got bytes rest payload : List ℕ)
      → Due (state Mode.framed start buffered c r p e) bytes payload
      → (bytes ≡ [] → payload ≡ [])
      → (length got ≡ 0 → rest ≡ [])
      → bytes ≡ got ++ rest
      → Feeds Due got rest payload (feed (state Mode.framed start buffered c r p e) got)
  unfolding feed
  feed_framed start buffered c r p e [] bytes rest payload d over gone cut =
      let none_left = over (cut ∙ gone refl) in
      elim (Bool-cases (r == 0 && p == 0 && is_empty buffered)) [
        | inl h ↦ rw h (
          payload,
          refl,
          subst (λ b. Due (state Mode.framed start buffered c r p e) b payload) cut d,
          λ nil. none_left,
        )
        | inr h ↦ rw h none_left
      ]
  feed_framed start buffered c r p e (g ∷ got) bytes rest payload
        (content, padding, wire, left, lc, lp, eq, q, behind, s0) over gone cut =
      (
        (
          content,
          padding,
          wire,
          left,
          lc,
          lp,
          append_assoc buffered (g ∷ got) rest ∙ ap (λ b. buffered ++ b) (sym cut) ∙ eq,
          q,
          behind,
          s0,
        ),
        omega arith,
      )

  -- A fill before the end of the stream.
  pub fill_undecided :
      (start : ℕ) (buffered : List ℕ) (c r p e : ℕ) (bytes payload : List ℕ)
      → length buffered < 21
      → Due (state Mode.undecided start buffered c r p e) bytes payload
      → (bytes ≡ [] → ⊥)
      → Settles Due feed bytes payload
          (fill_from_session (state Mode.undecided start buffered c r p e))
  unfolding fill_from_session
  fill_undecided start buffered c r p e bytes payload few d never =
      let (a, shape, room) = compact_shape (state Mode.undecided start buffered c r p e) few in
      subst (λ w. Settles Due feed bytes payload w)
        (sym (ap (λ t. Next.want (min 2048 (max_frame - (t.start + length t.buffered))) t) shape))
        (
          omega arith,
          d,
          λ got rest fits gone cut.
              feed_undecided a buffered c r p e got bytes rest payload d never gone cut,
        )

  pub fill_framed :
      (start : ℕ) (buffered : List ℕ) (c r p e : ℕ) (bytes payload : List ℕ)
      → length buffered < 21
      → Due (state Mode.framed start buffered c r p e) bytes payload
      → (bytes ≡ [] → payload ≡ [])
      → Settles Due feed bytes payload
          (fill_from_session (state Mode.framed start buffered c r p e))
  unfolding fill_from_session
  fill_framed start buffered c r p e bytes payload few d over =
      let (a, shape, room) = compact_shape (state Mode.framed start buffered c r p e) few in
      subst (λ w. Settles Due feed bytes payload w)
        (sym (ap (λ t. Next.want (min 2048 (max_frame - (t.start + length t.buffered))) t) shape))
        (
          omega arith,
          d,
          λ got rest fits gone cut.
              feed_framed a buffered c r p e got bytes rest payload d over gone cut,
        )

  pub raw_feed :
      (start : ℕ) (c r p e : ℕ) (got rest : List ℕ) (bytes payload : List ℕ)
      → bytes ≡ payload
      → (length got ≡ 0 → rest ≡ [])
      → bytes ≡ got ++ rest
      → Feeds Due got rest payload (feed (state Mode.raw start [] c r p e) got)
  unfolding feed
  raw_feed start c r p e [] rest bytes payload q gone cut =
      (payload, refl, (sym cut ∙ q, refl), λ nil. sym q ∙ cut ∙ gone refl)
  raw_feed start c r p e (g ∷ got) rest bytes payload q gone cut =
      (rest, sym q ∙ cut, (refl, refl), λ nil. absurd (omega (arith, ap length nil)))

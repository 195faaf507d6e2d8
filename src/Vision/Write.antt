-- ===== src/Vision/Write.antt =====
-- crates/clash-proxynet/src/vision.rs: every step of the writer keeps the account of what was sent.
use rust_clash.Common.{
  ℕ, suc, ◌+◌, ◌<◌, ◌≤◌, ◌≡◌, refl, sym, ◌∙◌, ap, Bool, true, false, List, [], ◌∷◌, ◌++◌, arith,
  length, length-append, All, take, drop, take-append-drop, take_all, length-take, length-drop, leb,
  ◌==◌, if◌then◌else◌, Bool-cases, inl, inr,
}
use mathlib.Core.Path.{subst}
use mathlib.Core.List.{append_assoc}
use rust_clash.Io.Writer.{Offer}
use rust_clash.Io.Writer.Law.{IsHonest, Takes, Offers}
use rust_clash.Vision.{cmd_end, max_frame}
use rust_clash.Vision.Frames.{Frames, Ending, frame_of, wire_of, carried, IsFrame}
use rust_clash.Vision.Uplink.{
  VisionWrite, uuid_over, max_content, stage_uplink, finish_uplink_frame, offer, took, writer,
}
use rust_clash.Vision.Sent.{command_of}
use rust_clash.Vision.Staged.{
  zeros_of, chunk_of, is_last, chunk_bounds, stage_uplink_lem, take_min, zeros_le,
}
use rust_clash.Vision.Account.{Account, cost, state, finished_Account, pending_Account}

module _ (draw : ℕ → ℕ → ℕ) (uuid : List ℕ) (sixteen : length uuid ≡ 16) where
  writing-Takes :
      (started : Bool) (b : ℕ) (left : List ℕ) (plain : ℕ) (last : Bool) (drawn : ℕ)
      (out taken rest : List ℕ) (k m : ℕ)
      → Account uuid (state started false (b ∷ left) plain last drawn) out taken rest
      → 0 < k
      → k ≤ length (b ∷ left)
      → length (b ∷ left) ≤ m
      → Takes
          (Account uuid)
          cost
          (out ++ take k (b ∷ left))
          taken
          rest
          m
          (took draw uuid (state started false (b ∷ left) plain last drawn) rest k)
  unfolding took cost finish_uplink_frame
  writing-Takes started b left plain last drawn out taken rest k m
        (fs, padding, all, free, ok, some_in, bound, e, t) g few most =
      let some_taken : (k == 0) ≡ false = ground arith in
      elim (Bool-cases (leb (length (b ∷ left)) k)) [
        | inl h ↦
            let whole = take_all (b ∷ left) k (ground arith) in
            rw (some_taken, h, whole)
              (
                omega (arith, ok.0, some_in, length-take plain rest),
                finished_Account uuid last fs out (b ∷ left) padding (take plain rest) taken all ok
                    e t drawn (drop plain rest),
              )
        | inr h ↦
            let size = length-drop k (b ∷ left) in
            let (account, price) =
              pending_Account uuid started (drop k (b ∷ left)) plain last drawn
                (out ++ take k (b ∷ left)) taken rest fs padding (ground (arith, size)) all ok
                some_in (omega (arith, size, bound))
                (append_assoc out (take k (b ∷ left)) (drop k (b ∷ left))
                  ∙ ap (λ w. out ++ w) (take-append-drop k (b ∷ left))
                  ∙ e)
                t in
            rw (some_taken, h) (account, omega (arith, price, size, g, most))
      ]

  any-Takes :
      (started : Bool) (left : List ℕ) (plain : ℕ) (last : Bool) (drawn : ℕ)
      (out taken rest : List ℕ) (k m : ℕ)
      → 0 < length left
      → Account uuid (state started false left plain last drawn) out taken rest
      → 0 < k
      → k ≤ length left
      → length left ≤ m
      → Takes
          (Account uuid)
          cost
          (out ++ take k left)
          taken
          rest
          m
          (took draw uuid (state started false left plain last drawn) rest k)
  any-Takes started [] plain last drawn out taken rest k m pos a g few most = absurd (omega arith)
  any-Takes started (b ∷ left) plain last drawn out taken rest k m pos a g few most =
      writing-Takes started b left plain last drawn out taken rest k m a g few most

  -- What was sent before a frame, with the frame behind it.
  front_lem :
      (started : Bool) (plain : ℕ) (last : Bool) (drawn : ℕ) (out taken rest frame : List ℕ)
      → Account uuid (state started false [] plain last drawn) out taken rest
      → (fs : Frames) × All IsFrame fs
        × (out ++ ((if started then [] else uuid) ++ frame)
            ≡ uuid ++ (wire_of fs Ending.open_end ++ frame))
        × (taken ≡ carried fs Ending.open_end)
        × (length (if started then [] else uuid) ≡ (if started then 0 else 16))
  front_lem true plain last drawn out taken rest frame (fs, all, pos, o, t) = (
    fs,
    all,
    ap (λ w. w ++ frame) o ∙ append_assoc uuid (wire_of fs Ending.open_end) frame,
    t,
    refl,
  )
  front_lem false plain last drawn out taken rest frame (o, t) =
      ([], tt, ap (λ w. w ++ (uuid ++ frame)) o, t, sixteen)

  staged_Account :
      (s : VisionWrite) (out taken : List ℕ) (x : ℕ) (rest : List ℕ)
      → s.left ≡ []
      → s.uplink_raw ≡ false
      → Account uuid
          (state s.uuid_sent false [] s.write_plain s.pending_end s.drawn)
          out
          taken
          (x ∷ rest)
      → (left : List ℕ) × (n : ℕ) × (final : Bool) × (stage_uplink draw uuid s (x ∷ rest)
          ≡ state s.uuid_sent false left n final (suc s.drawn))
        × Account uuid (state s.uuid_sent false left n final (suc s.drawn)) out taken (x ∷ rest)
        × (0 < length left)
        × (length left ≤ max_frame)
  staged_Account s out taken x rest none_left framed a =
      let buf = x ∷ rest in
      let chunk = chunk_of draw uuid s buf in
      let last = is_last draw uuid s buf in
      let zeros = zeros_of draw uuid s (length chunk) in
      let frame = frame_of (command_of last) chunk zeros in
      let (fs, all, e, t, over) =
        front_lem s.uuid_sent s.write_plain s.pending_end s.drawn out taken buf frame a in
      let (pos, fits, small) = chunk_bounds draw uuid s x rest in
      let fill = zeros_le draw uuid s (length chunk) in
      let left = (if s.uuid_sent then [] else uuid) ++ frame in
      let same : take (length chunk) buf ≡ chunk = take_min (max_content (uuid_over s)) buf in
      let size : length frame ≡ 5 + length chunk + length zeros =
        omega (arith, length-append chunk zeros) in
      let whole : length left ≡ length (if s.uuid_sent then [] else uuid) + length frame =
        length-append (if s.uuid_sent then [] else uuid) frame in
      let some_left : 0 < length left = omega (arith, whole, size) in
      let bound : length left ≤ max_frame = omega (arith, whole, size, over, fill, fits) in
      let ok : IsFrame (chunk, zeros) = (pos, omega (arith, fill, fits)) in
      (
        left,
        length chunk,
        last,
        stage_uplink_lem draw uuid s x rest ∙ rw framed refl,
        (pending_Account uuid s.uuid_sent left (length chunk) last (suc s.drawn) out taken buf fs
            zeros some_left all (subst (λ w. IsFrame (w, zeros)) (sym same) ok) small bound
            (e
              ∙ ap (λ w. uuid ++ (wire_of fs Ending.open_end ++ frame_of (command_of last) w zeros))
                  (sym same))
            t).0,
        some_left,
        bound,
      )

  free_Account :
      (started : Bool) (plain : ℕ) (last : Bool) (drawn : ℕ) (out taken rest more after : List ℕ)
      → Account uuid (state started true [] plain last drawn) out taken rest
      → Account uuid (state started true [] plain last drawn) (out ++ more) (taken ++ more) after
  free_Account started plain last drawn out taken rest more after
        (fs, content, padding, behind, all, ok, o, t) =
      let wire = wire_of fs Ending.open_end in
      let frame = frame_of cmd_end content padding in
      let before = carried fs Ending.open_end in
      (
        fs,
        content,
        padding,
        behind ++ more,
        all,
        ok,
        ap (λ w. w ++ more) o
            ∙ append_assoc uuid (wire ++ (frame ++ behind)) more
            ∙ ap (λ w. uuid ++ w)
                (append_assoc wire (frame ++ behind) more
                  ∙ ap (λ w. wire ++ w) (append_assoc frame behind more)),
        ap (λ w. w ++ more) t
            ∙ append_assoc before (content ++ behind) more
            ∙ ap (λ w. before ++ w) (append_assoc content behind more),
      )

  by_state :
      (started free : Bool) (left : List ℕ) (plain : ℕ) (last : Bool) (drawn : ℕ)
      (out taken : List ℕ) (x : ℕ) (rest : List ℕ)
      → Account uuid (state started free left plain last drawn) out taken (x ∷ rest)
      → Offers
          (Account uuid)
          cost
          (took draw uuid)
          out
          taken
          (x ∷ rest)
          (cost (state started free left plain last drawn) (x ∷ rest))
          (offer draw uuid (state started free left plain last drawn) (x ∷ rest))
  unfolding offer took cost
  by_state started true (b ∷ left) plain last drawn out taken x rest
        (fs, padding, all, free, ok, some_in, bound, e, t) =
      absurd cc
  by_state started false (b ∷ left) plain last drawn out taken x rest a = (
    omega arith,
    a,
    λ k g few.
        writing-Takes started b left plain last drawn out taken (x ∷ rest) k (length (b ∷ left)) a g
          few (omega arith),
  )
  by_state started true [] plain last drawn out taken x rest a = (
    omega arith,
    a,
    λ n g few. (
      g,
      free_Account started plain last drawn out taken (x ∷ rest) (take n (x ∷ rest))
          (drop n (x ∷ rest)) a,
    ),
  )
  by_state started false [] plain last drawn out taken x rest a =
      let s = state started false [] plain last drawn in
      let (left, n, final, staged, account, pos, bound) =
        staged_Account s out taken x rest refl refl a in
      let t = state started false left n final (suc drawn) in
      let next : offer draw uuid s (x ∷ rest) ≡ Offer.put left t = rw (offer, staged) refl in
      subst
        (λ o. Offers (Account uuid) cost (took draw uuid) out taken (x ∷ rest) (suc max_frame) o)
        (sym next)
        (
          pos,
          account,
          λ k g few.
              any-Takes started left n final (suc drawn) out taken (x ∷ rest) k (suc max_frame) pos
                account g few (omega (arith, bound)),
        )

  pub writer-IsHonest : IsHonest (Account uuid) cost (writer draw uuid)
  writer-IsHonest s out taken [] p a = absurd (omega arith)
  writer-IsHonest s out taken (x ∷ rest) p a =
      by_state s.uuid_sent s.uplink_raw s.left s.write_plain s.pending_end s.drawn out taken x rest
        a

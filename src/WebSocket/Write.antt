-- ===== src/WebSocket/Write.antt =====
-- crates/clash-proxynet/src/transport.rs: what poll_write puts on the wire are frames.
use rust_clash.Common.{
  ℕ, suc, ◌+◌, ◌^◌, ◌<◌, ◌≤◌, ◌≡◌, refl, sym, ◌∙◌, ap, false, List, [], ◌∷◌, ◌++◌, arith, length,
  All, take, drop, take-append-drop, take_all, length-drop, leb, ◌==◌, Bool-cases, inl, inr,
}
use mathlib.Core.List.{append_assoc, append-nil}
use rust_clash.Io.Reads.{length_zero}
use rust_clash.Io.Writer.Law.{IsHonest, Takes}
use rust_clash.WebSocket.{WsWrite, encode_client_binary_frame, offer, took, writer}
use rust_clash.WebSocket.Frame.{length-encode, length-header}
use rust_clash.WebSocket.Read.{Frames, wire_of, carried, IsFrame}

snoc_All :
    (fs : Frames) (f : List ℕ × List ℕ) → All IsFrame fs → IsFrame f → All IsFrame (fs ++ (f ∷ []))
snoc_All [] f all h = (h, tt)
snoc_All (g ∷ fs) f all h = (all.0, snoc_All fs f all.1 h)

wire_of-append :
    (fs : Frames) (mask bytes : List ℕ)
    → wire_of (fs ++ ((mask, bytes) ∷ [])) ≡ wire_of fs ++ encode_client_binary_frame mask bytes
wire_of-append [] mask bytes = append-nil (encode_client_binary_frame mask bytes)
wire_of-append ((m, b) ∷ fs) mask bytes =
    ap (λ r. encode_client_binary_frame m b ++ r) (wire_of-append fs mask bytes)
    ∙ sym (
        append_assoc (encode_client_binary_frame m b) (wire_of fs)
          (encode_client_binary_frame mask bytes))

carried-append :
    (fs : Frames) (mask bytes : List ℕ) → carried (fs ++ ((mask, bytes) ∷ [])) ≡ carried fs ++ bytes
carried-append [] mask bytes = append-nil bytes
carried-append ((m, b) ∷ fs) mask bytes =
    ap (λ r. b ++ r) (carried-append fs mask bytes) ∙ sym (append_assoc b (carried fs) bytes)

length-encode_pos : (mask bytes : List ℕ) → 0 < length (encode_client_binary_frame mask bytes)
unfolding encode_client_binary_frame
length-encode_pos mask bytes = omega arith

pub length-encode_le :
    (mask bytes : List ℕ)
    → length mask ≡ 4
    → length (encode_client_binary_frame mask bytes) ≤ 14 + length bytes
length-encode_le mask bytes m =
    omega (arith, length-encode mask bytes m, length-header (length bytes))

module _ (mask_key : ℕ → List ℕ) (four : (c : ℕ) → length (mask_key c) ≡ 4) where
  abbrev pub Account : WsWrite → List ℕ → List ℕ → List ℕ → Type 0
  Account (WsWrite.idle c) out taken rest =
      (length rest < 2 ^ 63)
      × ((fs : Frames) × All IsFrame fs × (out ≡ wire_of fs) × (taken ≡ carried fs))
  Account (WsWrite.writing left n c) out taken rest =
      (length rest < 2 ^ 63)
      × (0 < length left)
      × (length left ≤ 14 + n)
      × (n ≡ length rest)
      × (0 < length rest)
      × ((fs : Frames) × (mask before : List ℕ) × All IsFrame fs
          × (length mask ≡ 4)
          × (before ≡ wire_of fs)
          × (out ++ left ≡ before ++ encode_client_binary_frame mask rest)
          × (taken ≡ carried fs))

  unfoldable pub cost : WsWrite → List ℕ → ℕ
  cost (WsWrite.idle c) rest = length (encode_client_binary_frame (mask_key c) rest)
  cost (WsWrite.writing left n c) rest = length left

  writing-Takes :
      (left : List ℕ) (n c : ℕ) (out taken rest : List ℕ) (k : ℕ)
      → Account (WsWrite.writing left n c) out taken rest
      → 0 < k
      → k ≤ length left
      → Takes Account cost
          (out ++ take k left)
          taken
          rest
          (length left)
          (took mask_key (WsWrite.writing left n c) rest k)
  unfolding took cost
  writing-Takes left n c out taken rest k
        (small, p, bound, size, r, (fs, mask, before, all, m, b, e, t)) g few =
      let some_taken : (k == 0) ≡ false = ground arith in
      elim (Bool-cases (leb (length left) k)) [
        | inl h ↦
            let whole = take_all left k (ground arith) in
            let every = take_all rest n size in
            let nothing : drop n rest ≡ [] =
              length_zero (drop n rest) (omega (arith, size, length-drop n rest)) in
            rw (some_taken, h, whole, every, nothing)
              (
                omega (arith, size, r),
                (
                  omega arith,
                  (
                    fs ++ ((mask, rest) ∷ []),
                    snoc_All fs (mask, rest) all (m, r, small),
                    e
                        ∙ ap (λ w. w ++ encode_client_binary_frame mask rest) b
                        ∙ sym (wire_of-append fs mask rest),
                    ap (λ w. w ++ rest) t ∙ sym (carried-append fs mask rest),
                  ),
                ),
              )
        | inr h ↦
            let more : (out ++ take k left) ++ drop k left
                ≡ before ++ encode_client_binary_frame mask rest =
              append_assoc out (take k left) (drop k left)
              ∙ ap (λ w. out ++ w) (take-append-drop k left)
              ∙ e in
            rw (some_taken, h)
              (
                (
                  small,
                  ground (arith, length-drop k left),
                  omega (arith, bound, length-drop k left),
                  size,
                  r,
                  (fs, mask, before, all, m, b, more, t),
                ),
                omega (arith, length-drop k left),
              )
      ]

  pub writer-IsHonest : IsHonest Account cost (writer mask_key)
  unfolding offer took cost
  writer-IsHonest (WsWrite.idle c) out taken [] p a = absurd (omega arith)
  writer-IsHonest (WsWrite.idle c) out taken (x ∷ rest) p (small, (fs, all, o, t)) =
      let whole = encode_client_binary_frame (mask_key c) (x ∷ rest) in
      let pos = length-encode_pos (mask_key c) (x ∷ rest) in
      let a : Account (WsWrite.writing whole (length (x ∷ rest)) (suc c)) out taken (x ∷ rest) = (
        small,
        pos,
        length-encode_le (mask_key c) (x ∷ rest) (four c),
        refl,
        p,
        (fs, mask_key c, out, all, four c, o, refl, t),
      ) in
      (
        pos,
        a,
        λ k g few. writing-Takes whole (length (x ∷ rest)) (suc c) out taken (x ∷ rest) k a g few,
      )
  writer-IsHonest (WsWrite.writing left n c) out taken rest p a =
      (a.1, a, λ k g few. writing-Takes left n c out taken rest k a g few)

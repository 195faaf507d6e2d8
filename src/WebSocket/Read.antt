-- ===== src/WebSocket/Read.antt =====
-- crates/clash-proxynet/src/transport.rs: every step of the reader keeps what is due.
use rust_clash.Common.{
  ℕ, suc, ◌^◌, ◌<◌, ◌≡◌, refl, sym, ◌∙◌, ap, List, [], ◌∷◌, ◌++◌, arith, length, length-append, All,
  take, drop, take-append-drop, length-take, ltb, ltb→lt, Bool-cases, inl, inr, cut_append,
}
use mathlib.Core.Path.{subst}
use mathlib.Core.List.{append_assoc}
use Prim.Native.Nat.{min}
use rust_clash.Io.{Next}
use rust_clash.Io.Steps.{Feeds, Settles, IsLawful}
use rust_clash.WebSocket.{
  WsRead, WsEvent, Parsed, parse_ws_frame, encode_client_binary_frame, hand_out, on_event, drain,
  settle, feed, reader,
}
use rust_clash.WebSocket.Frame.{
  parse_ws_frame-encode_client_binary_frame, parse_ws_frame-incomplete,
}

-- Frames, each with its mask, on the wire, and the bytes they carry.
abbrev pub Frames : Type 0
Frames = List (List ℕ × List ℕ)

abbrev pub wire_of : Frames → List ℕ
wire_of [] = []
wire_of ((mask, bytes) ∷ fs) = encode_client_binary_frame mask bytes ++ wire_of fs

abbrev pub carried : Frames → List ℕ
carried [] = []
carried ((mask, bytes) ∷ fs) = bytes ++ carried fs

abbrev pub IsFrame : List ℕ × List ℕ → Type 0
IsFrame (mask, bytes) = (length mask ≡ 4) × (0 < length bytes) × (length bytes < 2 ^ 63)

abbrev pub Due : WsRead → List ℕ → List ℕ → Type 0
Due s bytes payload =
    (fs : Frames) × All IsFrame fs
    × (s.rx ++ bytes ≡ wire_of fs)
    × (payload ≡ s.decoded ++ carried fs)

abbrev state : List ℕ → List ℕ → ℕ → WsRead
state rx decoded empty = record { rx = rx; decoded = decoded; empty_frames = empty }

hand_out-Settles :
    (room : ℕ) (rx decoded bytes payload : List ℕ) (empty : ℕ)
    → 0 < room
    → 0 < length decoded
    → Due (state rx decoded empty) bytes payload
    → Settles Due feed bytes payload (hand_out room (state rx decoded empty))
unfolding hand_out
hand_out-Settles room rx decoded bytes payload empty r d (fs, all, e, q) =
    let n = min (length decoded) room in
    let front = take n decoded in
    let back = drop n decoded in
    (
      back ++ carried fs,
      q
          ∙ ap (λ w. w ++ carried fs) (sym (take-append-drop n decoded))
          ∙ append_assoc front back (carried fs),
      (fs, all, e, refl),
      λ nil. absurd (omega (arith, r, d, ap length nil, length-take n decoded)),
    )

feed-Feeds :
    (rx got bytes rest payload : List ℕ) (empty : ℕ)
    → Due (state rx [] empty) bytes payload
    → (bytes ≡ [] → payload ≡ [])
    → (length got ≡ 0 → rest ≡ [])
    → bytes ≡ got ++ rest
    → Feeds Due got rest payload (feed (state rx [] empty) got)
unfolding feed
feed-Feeds rx [] bytes rest payload empty due end gone cut = (
  payload,
  refl,
  subst (λ b. Due (state rx [] empty) b payload) cut due,
  λ nil. end (cut ∙ gone refl),
)
feed-Feeds rx (g ∷ got) bytes rest payload empty (fs, all, e, q) end gone cut =
    ((fs, all, append_assoc rx (g ∷ got) rest ∙ ap (λ b. rx ++ b) (sym cut) ∙ e, q), omega arith)

-- When no bytes come any more, nothing is due.
want-Settles :
    (rx bytes payload : List ℕ) (empty : ℕ)
    → Due (state rx [] empty) bytes payload
    → (bytes ≡ [] → payload ≡ [])
    → Settles Due feed bytes payload (Next.want 4096 (state rx [] empty))
want-Settles rx bytes payload empty due end = (
  omega arith,
  due,
  λ got rest few gone cut. feed-Feeds rx got bytes rest payload empty due end gone cut,
)

drain-Settles :
    (fuel room : ℕ) (rx bytes payload : List ℕ) (empty : ℕ) (fs : Frames)
    → 0 < room
    → All IsFrame fs
    → rx ++ bytes ≡ wire_of fs
    → payload ≡ carried fs
    → Settles Due feed bytes payload (drain (suc fuel) room (state rx [] empty))
unfolding drain on_event
drain-Settles fuel room [] bytes payload empty [] r all e q =
    want-Settles [] bytes payload empty ([], tt, e, q) (λ _. q)
drain-Settles fuel room (x ∷ rx) bytes payload empty [] r all e q =
    absurd (omega (arith, ap length e))
drain-Settles fuel room rx bytes payload empty ((mask, []) ∷ fs) r all e q =
    absurd (omega (arith, all.0.1))
drain-Settles fuel room rx bytes payload empty ((mask, b ∷ p) ∷ fs) r all e q =
    let frame = encode_client_binary_frame mask (b ∷ p) in
    elim (Bool-cases (ltb (length rx) (length frame))) [
      | inl t ↦
          let short = ltb→lt (length rx) (length frame) t in
          let none_yet =
            parse_ws_frame-incomplete mask (b ∷ p) (wire_of fs) rx bytes all.0.0 all.0.2 e short in
          let next : drain (suc fuel) room (state rx [] empty)
              ≡ Next.want 4096 (state rx [] empty) =
            rw (drain, none_yet) refl in
          subst (λ w. Settles Due feed bytes payload w) (sym next)
            (want-Settles rx bytes payload empty ((mask, b ∷ p) ∷ fs, all, e, q)
              (λ nil. absurd (
                omega (
                  arith,
                  short,
                  ap length e,
                  ap length nil,
                  length-append rx bytes,
                  length-append frame (wire_of fs),
                ))))
      | inr f ↦
          let k = length frame in
          let (same, left) =
            cut_append (take k rx) (drop k rx ++ bytes) frame (wire_of fs)
              (sym (append_assoc (take k rx) (drop k rx) bytes)
                ∙ ap (λ r. r ++ bytes) (take-append-drop k rx)
                ∙ e)
              (ground (arith, f, length-take k rx)) in
          let whole : rx ≡ frame ++ drop k rx =
            sym (take-append-drop k rx) ∙ ap (λ r. r ++ drop k rx) same in
          let parsed : parse_ws_frame rx ≡ Parsed.frame k (WsEvent.payload (b ∷ p)) =
            ap parse_ws_frame whole
            ∙ parse_ws_frame-encode_client_binary_frame mask (b ∷ p) (drop k rx) all.0.0 all.0.2 in
          let next : drain (suc fuel) room (state rx [] empty)
              ≡ hand_out room (state (drop k rx) (b ∷ p) 0) =
            rw (drain, parsed) refl in
          subst (λ w. Settles Due feed bytes payload w) (sym next)
            (hand_out-Settles room (drop k rx) (b ∷ p) bytes payload 0 r (omega arith)
              (fs, all.1, left, q))
    ]

by_decoded :
    (room : ℕ) (rx decoded : List ℕ) (empty : ℕ) (bytes payload : List ℕ)
    → 0 < room
    → Due (state rx decoded empty) bytes payload
    → Settles Due feed bytes payload (settle room (state rx decoded empty))
unfolding settle
by_decoded room rx [] empty bytes payload r (fs, all, e, q) =
    drain-Settles (length rx) room rx bytes payload empty fs r all e q
by_decoded room rx (b ∷ decoded) empty bytes payload r due =
    hand_out-Settles room rx (b ∷ decoded) bytes payload empty r (omega arith) due

pub reader-IsLawful : IsLawful Due reader
reader-IsLawful room s bytes payload r due =
    by_decoded room s.rx s.decoded s.empty_frames bytes payload r due

-- ===== src/WebSocket/Frame.antt =====
-- crates/clash-proxynet/src/transport.rs: what parse_ws_frame reads of an encoded frame.
use rust_clash.Common.{
  ℕ, suc, ◌+◌, ◌-◌, ◌/◌, ◌%◌, ◌^◌, ◌<◌, ◌≤◌, ◌≡◌, refl, sym, ◌∙◌, ap, true, false, List, [], ◌∷◌,
  ◌++◌, arith, length, length-append, take, drop, at, from_be16-be16, ltb, leb, ◌==◌, Bool-cases,
  inl, inr, bit_xor_twice, take-append_left, drop-append_left, take-append-drop, cut_append,
  length-take,
}
use mathlib.Core.List.{append_assoc}
use rust_clash.WebSocket.{
  WsEvent, Parsed, masked_from, from_be32, from_be64, be64, event_of, parse_payload, parse_mask,
  parse_ws_frame, length_bytes, encode_client_binary_frame,
}

length-masked_from :
    (mask : List ℕ) (i : ℕ) (bytes : List ℕ) → length (masked_from mask i bytes) ≡ length bytes
length-masked_from mask i [] = refl
length-masked_from mask i (b ∷ bytes) = ap suc (length-masked_from mask (suc i) bytes)

-- The mask twice is none.
masked_twice :
    (mask : List ℕ) (i : ℕ) (bytes : List ℕ) → masked_from mask i (masked_from mask i bytes) ≡ bytes
masked_twice mask i [] = refl
masked_twice mask i (b ∷ bytes) =
    ap (λ x. x ∷ masked_from mask (suc i) (masked_from mask (suc i) bytes))
      (bit_xor_twice b (at mask (i % 4)))
    ∙ ap (λ r. b ∷ r) (masked_twice mask (suc i) bytes)

from_be32-be32 :
    (v : ℕ)
    → v < 2 ^ 32
    → from_be32 (v / 2 ^ 24 % 2 ^ 8) (v / 2 ^ 16 % 2 ^ 8) (v / 2 ^ 8 % 2 ^ 8) (v % 2 ^ 8) ≡ v
from_be32-be32 v h = omega arith

-- Where a length of 8 bytes stands.
from_be64-be64 :
    (v : ℕ) (rest : List ℕ) (a b : ℕ) → v < 2 ^ 64 → from_be64 (a ∷ b ∷ (be64 v ++ rest)) 2 ≡ v
from_be64-be64 v rest a b h =
    let high = from_be32-be32 (v / 2 ^ 32) (omega arith) in
    let low = from_be32-be32 (v % 2 ^ 32) (omega arith) in omega (arith, high, low)

-- Behind the length: not all of the frame, or all.
parse_mask-incomplete :
    (opcode n off : ℕ) (buf : List ℕ)
    → off + 4 + n < 2 ^ 64
    → length buf < off + 4 + n
    → parse_mask opcode true n off buf ≡ Parsed.incomplete
unfolding parse_mask parse_payload
parse_mask-incomplete opcode n off buf small less = elim (Bool-cases (ltb (length buf) (off + 4))) [
  | inl t ↦ rw t refl
  | inr f ↦
      let behind : ltb (length buf) ((off + 4 + n) % 2 ^ 64) ≡ true = ground (arith, small, less) in
      rw (f, behind) refl
]

parse_mask_lem :
    (opcode n off : ℕ) (front mask body more : List ℕ)
    → length front ≡ off
    → length mask ≡ 4
    → length body ≡ n
    → off + 4 + n < 2 ^ 64
    → parse_mask opcode true n off (front ++ (mask ++ (body ++ more)))
      ≡ Parsed.frame (off + 4 + n) (event_of opcode (masked_from mask 0 body))
unfolding parse_mask parse_payload
parse_mask_lem opcode n off front mask body more f m b small =
    let buf = front ++ (mask ++ (body ++ more)) in
    let size : length buf ≡ off + 4 + n + length more = omega (
      arith,
      f,
      m,
      b,
      length-append front (mask ++ (body ++ more)),
      length-append mask (body ++ more),
      length-append body more,
    ) in
    let end : (off + 4 + n) % 2 ^ 64 ≡ off + 4 + n = omega (arith, small) in
    let long : ltb (length buf) (off + 4) ≡ false = ground (arith, size) in
    let whole : ltb (length buf) (off + 4 + n) ≡ false = ground (arith, size) in
    let forward : ltb (off + 4 + n) (off + 4) ≡ false = ground arith in
    let span : off + 4 + n - (off + 4) ≡ n = omega arith in
    let at_mask : drop off buf ≡ mask ++ (body ++ more) =
      drop-append_left front (mask ++ (body ++ more)) off (omega (arith, f)) in
    let the_mask : take 4 (mask ++ (body ++ more)) ≡ mask =
      take-append_left mask (body ++ more) 4 (omega (arith, m)) in
    let at_body : drop (off + 4) buf ≡ body ++ more =
      ap (drop (off + 4)) (sym (append_assoc front mask (body ++ more)))
      ∙ drop-append_left (front ++ mask) (body ++ more) (off + 4)
          (omega (arith, f, m, length-append front mask)) in
    let the_body : take n (body ++ more) ≡ body = take-append_left body more n (omega (arith, b)) in
    rw (long, end, whole, forward, span, at_mask, the_mask, at_body, the_body) refl

-- The two bytes and the length.
abbrev pub header : ℕ → List ℕ
header n = 0x82 ∷ length_bytes n

parse_header :
    (n : ℕ) (rest : List ℕ)
    → n < 2 ^ 63
    → parse_ws_frame (header n ++ rest) ≡ parse_mask 2 true n (length (header n)) (header n ++ rest)
unfolding parse_ws_frame
parse_header n rest h = elim (Bool-cases (ltb n 126)) [
  | inl t ↦
      let len : (128 + n) % 128 ≡ n = ground (arith, t) in
      let bit : ((128 + n) / 128 % 2 == 1) ≡ true = ground (arith, t) in
      let not_126 : (n == 126) ≡ false = ground (arith, t) in
      let not_127 : (n == 127) ≡ false = ground (arith, t) in
      let two : ltb (suc (suc (length rest))) 2 ≡ false = ground arith in
      rw (t, len, bit, not_126, not_127, two) refl
  | inr f ↦ elim (Bool-cases (leb n 65535)) [
    | inl t ↦
        let two : ltb (suc (suc (suc (suc (length rest))))) 2 ≡ false = ground arith in
        let four : ltb (suc (suc (suc (suc (length rest))))) 4 ≡ false = ground arith in
        rw (f, t, two, four, from_be16-be16 n (ground (arith, t))) refl
    | inr u ↦
        let two : ltb (suc (suc (suc (suc (suc (suc (suc (suc (suc (suc (length rest))))))))))) 2
            ≡ false =
          ground arith in
        let ten : ltb (suc (suc (suc (suc (suc (suc (suc (suc (suc (suc (length rest))))))))))) 10
            ≡ false =
          ground arith in
        rw (f, u, two, ten, from_be64-be64 n rest 0x82 255 (omega arith)) refl
  ]
]

-- Of a header that is cut off nothing is parsed.
parse_cut_header :
    (n : ℕ) (rx bytes rest : List ℕ)
    → rx ++ bytes ≡ header n ++ rest
    → length rx < length (header n)
    → parse_ws_frame rx ≡ Parsed.incomplete
unfolding parse_ws_frame
parse_cut_header n [] bytes rest e h = refl
parse_cut_header n (a ∷ []) bytes rest e h = refl
parse_cut_header n (a ∷ b ∷ rx) bytes rest e h = elim (Bool-cases (ltb n 126)) [
  | inl t ↦ absurd (omega (arith, rw t at h))
  | inr f ↦ elim (Bool-cases (leb n 65535)) [
    | inl t ↦
        let second : b ≡ 254 = rw (f, t) at (ap (λ l. at l 1) e) in
        let less : ltb (length (a ∷ b ∷ rx)) 4 ≡ true = ground (arith, rw (f, t) at h) in
        let two : ltb (length (a ∷ b ∷ rx)) 2 ≡ false = ground arith in
        rw (parse_ws_frame, second, two, less) refl
    | inr u ↦
        let second : b ≡ 255 = rw (f, u) at (ap (λ l. at l 1) e) in
        let less : ltb (length (a ∷ b ∷ rx)) 10 ≡ true = ground (arith, rw (f, u) at h) in
        let two : ltb (length (a ∷ b ∷ rx)) 2 ≡ false = ground arith in
        rw (parse_ws_frame, second, two, less) refl
  ]
]

pub length-encode :
    (mask bytes : List ℕ)
    → length mask ≡ 4
    → length (encode_client_binary_frame mask bytes)
      ≡ length (header (length bytes)) + 4 + length bytes
unfolding encode_client_binary_frame
length-encode mask bytes m = omega (
  arith,
  m,
  length-append (length_bytes (length bytes)) (mask ++ masked_from mask 0 bytes),
  length-append mask (masked_from mask 0 bytes),
  length-masked_from mask 0 bytes,
)

regroup :
    (mask bytes more : List ℕ)
    → encode_client_binary_frame mask bytes ++ more
      ≡ header (length bytes) ++ (mask ++ (masked_from mask 0 bytes ++ more))
unfolding encode_client_binary_frame
regroup mask bytes more =
    append_assoc (header (length bytes)) (mask ++ masked_from mask 0 bytes) more
    ∙ ap (λ r. header (length bytes) ++ r) (append_assoc mask (masked_from mask 0 bytes) more)

pub length-header : (n : ℕ) → length (header n) ≤ 10
length-header n = elim (Bool-cases (ltb n 126)) [
  | inl t ↦ rw t (omega arith)
  | inr f ↦ elim (Bool-cases (leb n 65535)) [
    | inl t ↦ rw (f, t) (omega arith)
    | inr u ↦ rw (f, u) (omega arith)
  ]
]

-- A frame of fewer than 2 ^ 63 bytes, whatever stands behind it, is parsed to the bytes that were
-- encoded; a front of it is not parsed yet.
pub parse_ws_frame-encode_client_binary_frame :
    (mask bytes more : List ℕ)
    → length mask ≡ 4
    → length bytes < 2 ^ 63
    → parse_ws_frame (encode_client_binary_frame mask bytes ++ more)
      ≡ Parsed.frame (length (encode_client_binary_frame mask bytes)) (WsEvent.payload bytes)
parse_ws_frame-encode_client_binary_frame mask bytes more m small =
    let n = length bytes in
    let body = masked_from mask 0 bytes in
    let size = length-masked_from mask 0 bytes in
    ap parse_ws_frame (regroup mask bytes more)
    ∙ parse_header n (mask ++ (body ++ more)) small
    ∙ parse_mask_lem 2 n (length (header n)) (header n) mask body more refl m size
        (omega (arith, small, length-header n))
    ∙ ap (λ b. Parsed.frame (length (header n) + 4 + n) (WsEvent.payload b))
        (masked_twice mask 0 bytes)
    ∙ ap (λ k. Parsed.frame k (WsEvent.payload bytes)) (sym (length-encode mask bytes m))

pub parse_ws_frame-incomplete :
    (mask bytes more rx rest : List ℕ)
    → length mask ≡ 4
    → length bytes < 2 ^ 63
    → rx ++ rest ≡ encode_client_binary_frame mask bytes ++ more
    → length rx < length (encode_client_binary_frame mask bytes)
    → parse_ws_frame rx ≡ Parsed.incomplete
parse_ws_frame-incomplete mask bytes more rx rest m small e h =
    let n = length bytes in
    let behind = mask ++ (masked_from mask 0 bytes ++ more) in
    let cut = e ∙ regroup mask bytes more in
    elim (Bool-cases (ltb (length rx) (length (header n)))) [
      | inl t ↦ parse_cut_header n rx rest behind cut (ground (arith, t))
      | inr f ↦
          let k = length (header n) in
          let (same, left) =
            cut_append (take k rx) (drop k rx ++ rest) (header n) behind
              (sym (append_assoc (take k rx) (drop k rx) rest)
                ∙ ap (λ r. r ++ rest) (take-append-drop k rx)
                ∙ cut)
              (ground (arith, f, length-take k rx)) in
          let whole : rx ≡ header n ++ drop k rx =
            sym (take-append-drop k rx) ∙ ap (λ r. r ++ drop k rx) same in
          let less = length-encode mask bytes m in
          ap parse_ws_frame whole
          ∙ parse_header n (drop k rx) small
          ∙ parse_mask-incomplete 2 n k (header n ++ drop k rx)
              (omega (arith, small, length-header n)) (omega (arith, h, less, ap length whole))
    ]

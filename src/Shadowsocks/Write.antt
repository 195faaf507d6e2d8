-- ===== src/Shadowsocks/Write.antt =====
-- crates/clash-proxynet/src/ss.rs: what poll_write puts on the wire.
use rust_clash.Common.{
  ℕ, suc, ◌+◌, ◌<◌, ◌≤◌, ◌≡◌, refl, some, List, [], ◌∷◌, ◌++◌, arith, length, All, be16,
  length-append, take, drop, take-append-drop, take_all, length-take, length-drop, leb, false,
  Bool-cases, inl, inr, ◌==◌,
}
use mathlib.Core.List.{append-nil}
use Prim.Native.Nat.{min}
use rust_clash.Io.{Poll, Turn}
use rust_clash.Io.Steps.{Gives}
use rust_clash.Io.Reads.{length_zero}
use rust_clash.Shadowsocks.{
  SsCipher, key_len, Aead, Crypto, next, WriteState, Staged, ShadowedStream, stage_chunk, hkdf_sha1,
  stage, flush_loop, flush_staged, poll_write, max_payload,
}
use rust_clash.Shadowsocks.Laws.{CryptoLaws}
use rust_clash.Shadowsocks.Frames.{sealed, frames, length-sealed, seal_lem}

-- The loop of `Flush` with turns that give, as many as there are bytes: all goes out.
flush_whole :
    (consumed total written : ℕ) (s : ShadowedStream) (turns : List Turn)
    → 0 < length s.write_buf
    → written + length s.write_buf ≡ total
    → All Gives turns
    → length s.write_buf ≤ length turns
    → (later : List Turn) × (flush_loop consumed total written s turns ≡ (
      Poll.ready consumed,
      record s { write_state = WriteState.chunk; write_buf = [] },
      s.write_buf,
      later,
    ))
unfolding flush_loop
flush_whole consumed total written s [] p e g h = absurd (omega arith)
flush_whole consumed total written s (Turn.waits ∷ turns) p e g h = absurd g.0
flush_whole consumed total written s (Turn.breaks ∷ turns) p e g h = absurd g.0
flush_whole consumed total written s (Turn.gives k ∷ turns) p e g h =
    let n = min (suc k) (length s.write_buf) in
    let back = drop n s.write_buf in
    let size = length-drop n s.write_buf in
    let some_sent : (n == 0) ≡ false = ground arith in
    elim (Bool-cases (leb total (written + n))) [
      | inl t ↦
          let all : n ≡ length s.write_buf = ground arith in
          let nothing : back ≡ [] = length_zero back (omega (arith, size)) in
          let front : take n s.write_buf ≡ s.write_buf = take_all s.write_buf n all in
          (turns, rw (some_sent, t, nothing, front) refl)
      | inr f ↦
          let sent = record s { write_buf = back } in
          let (later, done) =
            flush_whole consumed total (written + n) sent turns (ground (arith, size))
              (omega (arith, size)) g.1 (omega (arith, size)) in
          (later, rw (some_sent, f, done, take-append-drop n s.write_buf) refl)
    ]

key_len_le : (kind : SsCipher) → key_len kind ≤ 32
key_len_le SsCipher.aes128_gcm = omega arith
key_len_le SsCipher.aes256_gcm = omega arith
key_len_le SsCipher.chacha20_poly1305 = omega arith

module _ (crypto : Crypto) (laws : CryptoLaws crypto) where
  -- What a call accepts of the buffer.
  abbrev pub accepted : List ℕ → List ℕ
  accepted buf = take (min (length buf) max_payload) buf

  -- A stream that holds `buf` to be written, and one that holds nothing.
  abbrev pub holding : ShadowedStream → Aead → List ℕ → ShadowedStream
  holding s aead buf = record s { enc = some aead; write_buf = buf; write_state = WriteState.chunk }

  abbrev pub idle : ShadowedStream → Aead → ShadowedStream
  idle s aead = holding s aead []

  -- The same stream after two nonces.
  abbrev pub advance : ShadowedStream → ShadowedStream
  advance s = record s { enc_nonce = next (next s.enc_nonce) }

  abbrev staged : ShadowedStream → Aead → ℕ → List ℕ → ShadowedStream
  staged s aead consume wire = record (advance s) {
    enc = some aead;
    write_buf = wire;
    write_state = WriteState.flush consume (length wire) 0;
  }

  -- A chunk behind what `write_buf` holds.
  stage_chunk_lem :
      (s : ShadowedStream) (aead : Aead) (held buf : List ℕ)
      → stage_chunk crypto (holding s aead held) buf
        ≡ Staged.flushing (
            staged s aead
              (min (length buf) max_payload)
              (held ++ frames crypto aead s.enc_nonce (accepted buf ∷ [])))
  unfolding stage_chunk frames
  stage_chunk_lem s aead held buf =
      let consume = min (length buf) max_payload in
      let size : length (accepted buf) ≡ consume = omega (arith, length-take consume buf) in
      let head = seal_lem crypto laws aead s.enc_nonce (be16 consume) (omega arith) in
      let body =
        seal_lem crypto laws aead (next s.enc_nonce) (accepted buf) (omega (arith, size)) in
      rw (stage_chunk, head, body, size, append-nil) refl

  length-frame :
      (aead : Aead) (nonce p : List ℕ)
      → length p ≤ max_payload
      → length (frames crypto aead nonce (p ∷ [])) ≡ length p + 34
  unfolding frames
  length-frame aead nonce p h =
      let head = sealed crypto aead nonce (be16 (length p)) in
      let body = sealed crypto aead (next nonce) p in
      omega (
        arith,
        length-append head (body ++ []),
        length-append body [],
        length-sealed crypto laws aead nonce (be16 (length p)) (omega arith),
        length-sealed crypto laws aead (next nonce) p (omega arith),
      )

  -- A chunk staged and flushed.
  send_chunk :
      (s : ShadowedStream) (aead : Aead) (held buf : List ℕ) (turns : List Turn)
      → length held ≤ 32
      → All Gives turns
      → 17000 ≤ length turns
      → (let wire = held ++ frames crypto aead s.enc_nonce (accepted buf ∷ []) in
          (later : List Turn) × (flush_staged
              (staged s aead (min (length buf) max_payload) wire)
              turns
            ≡ (Poll.ready (min (length buf) max_payload), idle (advance s) aead, wire, later)))
  unfolding flush_staged
  send_chunk s aead held buf turns w g h =
      let consume = min (length buf) max_payload in
      let frame = frames crypto aead s.enc_nonce (accepted buf ∷ []) in
      let size =
        length-frame aead s.enc_nonce (accepted buf) (omega (arith, length-take consume buf)) in
      let wire = held ++ frame in
      flush_whole consume (length wire) 0 (staged s aead consume wire) turns
        (omega (arith, length-append held frame, size)) (omega arith) g
        (omega (arith, length-append held frame, size, length-take consume buf))

  pub next_chunk :
      (random : List ℕ) (s : ShadowedStream) (aead : Aead) (buf : List ℕ) (turns : List Turn)
      → All Gives turns
      → 17000 ≤ length turns
      → (later : List Turn) × (poll_write crypto random (idle s aead) buf turns ≡ (
        Poll.ready (min (length buf) max_payload),
        idle (advance s) aead,
        frames crypto aead s.enc_nonce (accepted buf ∷ []),
        later,
      ))
  unfolding poll_write stage
  next_chunk random s aead buf turns g n =
      let (later, sent) = send_chunk s aead [] buf turns (omega arith) g n in
      (later, rw (poll_write, stage_chunk_lem s aead [] buf) sent)

  pub first_chunk :
      (random key : List ℕ) (s : ShadowedStream) (buf : List ℕ) (turns : List Turn)
      → crypto.expand s.psk random (key_len s.kind) ≡ some key
      → length random ≡ key_len s.kind
      → All Gives turns
      → 17000 ≤ length turns
      → (let aead : Aead = record { kind = s.kind; key = key } in
          (later : List Turn) × (poll_write crypto random
              (record s { write_state = WriteState.fresh })
              buf
              turns
            ≡ (
              Poll.ready (min (length buf) max_payload),
              idle (advance s) aead,
              random ++ frames crypto aead s.enc_nonce (accepted buf ∷ []),
              later,
            )))
  unfolding poll_write stage hkdf_sha1
  first_chunk random key s buf turns e n g m =
      let aead : Aead = record { kind = s.kind; key = key } in
      let (later, sent) =
        send_chunk s aead random buf turns (omega (arith, n, key_len_le s.kind)) g m in
      let put : stage crypto random (record s { write_state = WriteState.fresh }) buf
          ≡ Staged.flushing (
              staged s aead (min (length buf) max_payload)
                (random ++ frames crypto aead s.enc_nonce (accepted buf ∷ []))) =
        rw (stage, e) (stage_chunk_lem s aead random buf) in
      (later, rw (poll_write, put) sent)

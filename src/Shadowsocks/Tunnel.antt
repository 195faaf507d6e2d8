-- ===== src/Shadowsocks/Tunnel.antt =====
-- crates/clash-proxynet/src/ss.rs: what one stream writes, another one reads.
use rust_clash.Common.{
  ℕ, ◌+◌, ◌<◌, ◌≤◌, ◌≡◌, refl, sym, ◌∙◌, ap, List, [], ◌∷◌, ◌++◌, arith, length, All, concat, take,
  drop, take-append-drop, length-take, length-drop,
}
use mathlib.Core.List.{append_assoc}
use Prim.Native.Nat.{min}
use rust_clash.Io.{Poll, Turn, reads}
use rust_clash.Io.Steps.{Gives}
use rust_clash.Io.Reads.{reads_whole, reads-Front}
use rust_clash.Shadowsocks.{
  SsCipher, key_len, Aead, Crypto, initial, new_nonce, next, ShadowedStream, Written, poll_write,
  max_payload, reader,
}
use rust_clash.Shadowsocks.Laws.{CryptoLaws}
use rust_clash.Shadowsocks.Frames.{frames, frames-append, IsChunk, Due}
use rust_clash.Shadowsocks.Read.{reader-IsLawful}
use rust_clash.Shadowsocks.Write.{idle, advance, next_chunk, first_chunk}

module _ (crypto : Crypto) where
  -- `write_all` of a buffer, as tokio has it: a call for what is left of it, with turns of its own,
  -- until nothing is left. What went to the inner stream.
  unfoldable pub sent_before : Written → (ℕ → ShadowedStream → List ℕ) → List ℕ
  sent_before (Poll.ready n, s, wire, turns) more = wire ++ more n s
  sent_before (Poll.failed e, s, wire, turns) more = wire
  sent_before (Poll.pending, s, wire, turns) more = wire

  unfoldable pub write_all : List ℕ → ShadowedStream → List ℕ → List (List Turn) → List ℕ
  unfolding sent_before poll_write
  write_all random s [] supply = []
  write_all random s (b ∷ buf) [] = []
  write_all random s (b ∷ buf) (turns ∷ supply) =
      sent_before (poll_write crypto random s (b ∷ buf) turns)
        (λ n t. write_all random t (drop n (b ∷ buf)) supply)

  -- For each call more turns that give than it has bytes to write.
  abbrev pub IsAmple : List Turn → Type 0
  IsAmple turns = All Gives turns × (17000 ≤ length turns)

key_len_pos : (kind : SsCipher) → 0 < key_len kind
key_len_pos SsCipher.aes128_gcm = omega arith
key_len_pos SsCipher.aes256_gcm = omega arith
key_len_pos SsCipher.chacha20_poly1305 = omega arith

module _ (crypto : Crypto) (laws : CryptoLaws crypto) where
  wire_idle :
      (random : List ℕ) (s : ShadowedStream) (aead : Aead) (buf : List ℕ)
      (supply : List (List Turn))
      → All (IsAmple crypto) supply
      → length buf ≤ length supply
      → (ps : List (List ℕ)) × All (IsChunk crypto) ps
        × (buf ≡ concat ps)
        × (write_all crypto random (idle crypto laws s aead) buf supply
            ≡ frames crypto aead s.enc_nonce ps)
  unfolding write_all frames sent_before
  wire_idle random s aead [] supply h n = ([], tt, refl, refl)
  wire_idle random s aead (b ∷ buf) [] h n = absurd (omega arith)
  wire_idle random s aead (b ∷ buf) (turns ∷ supply) h n =
      let whole = b ∷ buf in
      let count = min (length whole) max_payload in
      let back = drop count whole in
      let (later, sent) = next_chunk crypto laws random s aead whole turns h.0.0 h.0.1 in
      let (ps, chunks, cut, rest) =
        wire_idle random (advance crypto laws s) aead back supply h.1
          (omega (arith, length-drop count whole)) in
      (
        take count whole ∷ ps,
        ((omega (arith, length-take count whole), omega (arith, length-take count whole)), chunks),
        sym (take-append-drop count whole) ∙ ap (λ r. take count whole ++ r) cut,
        ap (λ out. sent_before crypto out (λ n t. write_all crypto random t (drop n whole) supply))
              sent
            ∙ ap (λ w. frames crypto aead s.enc_nonce (take count whole ∷ []) ++ w) rest
            ∙ frames-append crypto aead s.enc_nonce (take count whole) ps,
      )

  -- The wire of a new stream: a salt, and chunks that make up the buffer.
  wire_of :
      (kind : SsCipher) (psk random buf : List ℕ) (supply : List (List Turn))
      → length random ≡ key_len kind
      → All (IsAmple crypto) supply
      → 0 < length buf
      → length buf ≤ length supply
      → Due crypto (initial kind psk) (write_all crypto random (initial kind psk) buf supply) buf
  unfolding write_all frames sent_before
  wire_of kind psk random [] supply r h p n = absurd (omega arith)
  wire_of kind psk random (b ∷ buf) [] r h p n = absurd (omega arith)
  wire_of kind psk random (b ∷ buf) (turns ∷ supply) r h p n =
      let s = initial kind psk in
      let whole = b ∷ buf in
      let count = min (length whole) max_payload in
      let back = drop count whole in
      let front = take count whole in
      let (key, e) = laws.expand_some psk random kind in
      let aead : Aead = record { kind = kind; key = key } in
      let (later, sent) = first_chunk crypto laws random key s whole turns e r h.0.0 h.0.1 in
      let (ps, chunks, cut, rest) =
        wire_idle random (advance crypto laws s) aead back supply h.1
          (omega (arith, length-drop count whole)) in
      let wire : write_all crypto random s whole (turns ∷ supply)
          ≡ random ++ frames crypto aead new_nonce (front ∷ ps) =
        ap (λ out. sent_before crypto out (λ n t. write_all crypto random t (drop n whole) supply))
          sent
        ∙ ap (λ w. (random ++ frames crypto aead new_nonce (front ∷ [])) ++ w) rest
        ∙ append_assoc random (frames crypto aead new_nonce (front ∷ []))
            (frames crypto aead (next (next new_nonce)) ps)
        ∙ ap (λ w. random ++ w) (frames-append crypto aead new_nonce front ps) in
      (
        (
          random,
          key,
          frames crypto aead new_nonce (front ∷ ps),
          r,
          e,
          wire,
          (
            front ∷ ps,
            (
              (omega (arith, length-take count whole), omega (arith, length-take count whole)),
              chunks,
            ),
            refl,
            sym (take-append-drop count whole) ∙ ap (λ r. front ++ r) cut,
          ),
        ),
        key_len_pos kind,
      )

  -- Shadowsocks streams over one another: what `write_all` of a new stream puts on the wire, given
  -- turns that let bytes through, in calls of a turn for each of 17,000 bytes, as many as the
  -- buffer, which is not empty, has bytes, and with a salt of the length of the key: a new stream
  -- with the same cipher and key reads it back, when the wire arrives, in whatever pieces, and there
  -- are as many calls as bytes, each with room in its buffer: the calls deliver exactly the buffer.
  pub reads-write_all :
      (kind : SsCipher) (psk random buf : List ℕ) (supply : List (List Turn)) (rooms : List ℕ)
      (turns : List Turn)
      → length random ≡ key_len kind
      → All (IsAmple crypto) supply
      → 0 < length buf
      → length buf ≤ length supply
      → All (λ room. 0 < room) rooms
      → length buf ≤ length rooms
      → All Gives turns
      → length (write_all crypto random (initial kind psk) buf supply) + length rooms ≤ length turns
      → reads
          (reader crypto)
          rooms
          (initial kind psk)
          (write_all crypto random (initial kind psk) buf supply)
          turns
        ≡ buf
  reads-write_all kind psk random buf supply rooms turns r h p n room few g t =
      reads_whole (Due crypto) (reader crypto) (reader-IsLawful crypto laws) rooms
        (initial kind psk) (write_all crypto random (initial kind psk) buf supply) buf turns room
        (wire_of kind psk random buf supply r h p n) g few t

  -- The same wire, whatever turns the inner stream of the reader takes, with waits and errors among
  -- them, and however many calls there are, each with room in its buffer: what the calls deliver is
  -- the front of the buffer.
  pub reads-write_all-Front :
      (kind : SsCipher) (psk random buf : List ℕ) (supply : List (List Turn)) (rooms : List ℕ)
      (turns : List Turn)
      → length random ≡ key_len kind
      → All (IsAmple crypto) supply
      → 0 < length buf
      → length buf ≤ length supply
      → All (λ room. 0 < room) rooms
      → (left : List ℕ) × (buf
          ≡ reads
              (reader crypto)
              rooms
              (initial kind psk)
              (write_all crypto random (initial kind psk) buf supply)
              turns
            ++ left)
  reads-write_all-Front kind psk random buf supply rooms turns r h p n room =
      reads-Front (Due crypto) (reader crypto) (reader-IsLawful crypto laws) rooms
        (initial kind psk) (write_all crypto random (initial kind psk) buf supply) buf turns room
        (wire_of kind psk random buf supply r h p n)

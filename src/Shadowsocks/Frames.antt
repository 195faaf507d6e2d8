-- ===== src/Shadowsocks/Frames.antt =====
-- crates/clash-proxynet/src/ss.rs: the sealed chunks as they stand on the wire, and what a stream
-- has still to deliver of them.
use rust_clash.Common.{
  ℕ, ◌+◌, ◌^◌, ◌<◌, ◌≤◌, ◌≡◌, refl, ◌∙◌, ap, none, some, List, [], ◌∷◌, ◌++◌, length, All, concat,
  be16,
}
use mathlib.Core.List.{append_assoc}
use rust_clash.Shadowsocks.{
  SsCipher, key_len, Aead, Crypto, seal, unseal, next, ReadState, ShadowedStream, max_payload,
}
use rust_clash.Shadowsocks.Laws.{CryptoLaws, unseal-seal}

module _ (crypto : Crypto) where
  unfoldable pub sealed : Aead → List ℕ → List ℕ → List ℕ
  unfolding seal
  sealed aead nonce buf = elim (seal crypto aead nonce buf) [ none ↦ [] | some s ↦ s ]

  -- The chunks from the nonce `nonce` on: of each its length and its bytes.
  unfoldable pub frames : Aead → List ℕ → List (List ℕ) → List ℕ
  unfolding sealed next
  frames aead nonce [] = []
  frames aead nonce (p ∷ ps) =
      sealed aead nonce (be16 (length p))
      ++ (sealed aead (next nonce) p ++ frames aead (next (next nonce)) ps)

  abbrev pub IsChunk : List ℕ → Type 0
  IsChunk p = (0 < length p) × (length p ≤ max_payload)

  -- `bytes` are the chunks that make up `payload`.
  abbrev pub IsWire : Aead → List ℕ → List ℕ → List ℕ → Type 0
  IsWire aead nonce bytes payload =
      (ps : List (List ℕ)) × All IsChunk ps × (bytes ≡ frames aead nonce ps) × (payload ≡ concat ps)

  -- Behind a salt.
  abbrev pub IsSalted : SsCipher → List ℕ → List ℕ → List ℕ → List ℕ → Type 0
  IsSalted kind psk nonce bytes payload =
      (prefix key rest : List ℕ) × (length prefix ≡ key_len kind)
      × (crypto.expand psk prefix (key_len kind) ≡ some key)
      × (bytes ≡ prefix ++ rest)
      × IsWire (record { kind = kind; key = key }) nonce rest payload

  -- In the middle of a chunk, `p`.
  abbrev pub IsInside : Aead → List ℕ → List ℕ → List ℕ → List ℕ → Type 0
  IsInside aead nonce p bytes payload =
      (rest left : List ℕ) × (bytes ≡ sealed aead nonce p ++ rest)
      × (payload ≡ p ++ left)
      × IsWire aead (next nonce) rest left

  -- What is due, by the state of the reader, what `read_buf` holds and what will arrive.
  abbrev pub DueIn : ReadState → ShadowedStream → List ℕ → List ℕ → Type 0
  DueIn ReadState.salt s bytes payload =
      IsSalted s.kind s.psk s.dec_nonce (s.read_buf ++ bytes) payload
      × (length s.read_buf < key_len s.kind)
  DueIn ReadState.length_of s bytes payload =
      (aead : Aead) × (s.dec ≡ some aead)
      × IsWire aead s.dec_nonce (s.read_buf ++ bytes) payload
      × (length s.read_buf < 18)
  DueIn (ReadState.payload_of n) s bytes payload =
      (aead : Aead) × (s.dec ≡ some aead)
      × ((p : List ℕ) × IsChunk p
          × (n ≡ length p)
          × IsInside aead s.dec_nonce p (s.read_buf ++ bytes) payload)
      × (length s.read_buf < n + 16)
  DueIn (ReadState.pending_of n) s bytes payload =
      (aead : Aead) × (s.dec ≡ some aead)
      × (length s.read_buf ≡ n)
      × (0 < n)
      × ((left : List ℕ) × IsWire aead s.dec_nonce bytes left × (payload ≡ s.read_buf ++ left))

  abbrev pub Due : ShadowedStream → List ℕ → List ℕ → Type 0
  Due s bytes payload = DueIn s.read_state s bytes payload

  module _ (laws : CryptoLaws crypto) where
    pub length-sealed :
        (aead : Aead) (nonce buf : List ℕ)
        → length buf < 2 ^ 16
        → length (sealed aead nonce buf) ≡ length buf + 16
    unfolding sealed
    length-sealed aead nonce buf h =
        let (s, e, n, o) = unseal-seal crypto laws aead nonce buf h in rw (sealed, e) n

    pub unseal-sealed :
        (aead : Aead) (nonce buf : List ℕ)
        → length buf < 2 ^ 16
        → unseal crypto aead nonce (sealed aead nonce buf) ≡ some buf
    unfolding sealed
    unseal-sealed aead nonce buf h =
        let (s, e, n, o) = unseal-seal crypto laws aead nonce buf h in rw (sealed, e) o

    pub seal_lem :
        (aead : Aead) (nonce buf : List ℕ)
        → length buf < 2 ^ 16
        → seal crypto aead nonce buf ≡ some (sealed aead nonce buf)
    unfolding sealed
    seal_lem aead nonce buf h =
        let (s, e, n, o) = unseal-seal crypto laws aead nonce buf h in rw (sealed, e) refl

  -- A chunk, and those behind it.
  pub frames-append :
      (aead : Aead) (nonce p : List ℕ) (ps : List (List ℕ))
      → frames aead nonce (p ∷ []) ++ frames aead (next (next nonce)) ps
        ≡ frames aead nonce (p ∷ ps)
  unfolding frames
  frames-append aead nonce p ps =
      let head = sealed aead nonce (be16 (length p)) in
      let body = sealed aead (next nonce) p in
      append_assoc head (body ++ []) (frames aead (next (next nonce)) ps)
      ∙ ap (λ r. head ++ r) (append_assoc body [] (frames aead (next (next nonce)) ps))

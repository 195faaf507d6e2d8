-- ===== src/Shadowsocks/Laws.antt =====
-- crates/clash-proxynet/src/ss.rs: what the stream relies on in the crates for its cryptography.
use rust_clash.Common.{
  ℕ, ◌+◌, ◌-◌, ◌^◌, ◌<◌, ◌≡◌, refl, some, List, ◌++◌, arith, length, length-append,
  take-append_left, drop-append_left, false, ltb,
}
use rust_clash.Shadowsocks.{SsCipher, key_len, Aead, Crypto, seal, unseal}

-- A buffer of a sealed chunk's length is encrypted to one as long and a tag of 16 bytes, which are
-- decrypted to it. HKDF gives a key of the length that a cipher asks for. An MD5 digest has 16
-- bytes.
pub record CryptoLaws (crypto : Crypto) : Type 0 where
  pub decrypt-encrypt :
      (aead : Aead) (nonce buf : List ℕ)
      → length buf < 2 ^ 16
      → (text tag : List ℕ) × (crypto.encrypt aead nonce buf ≡ some (text, tag))
        × (length text ≡ length buf)
        × (length tag ≡ 16)
        × (crypto.decrypt aead nonce text tag ≡ some buf)
  pub expand_some :
      (psk prefix : List ℕ) (kind : SsCipher)
      → (key : List ℕ) × (crypto.expand psk prefix (key_len kind) ≡ some key)
  pub length-md5 : (bytes : List ℕ) → length (crypto.md5 bytes) ≡ 16

module _ (crypto : Crypto) (laws : CryptoLaws crypto) where
  -- A chunk is sealed to 16 bytes more, and opened again.
  pub unseal-seal :
      (aead : Aead) (nonce buf : List ℕ)
      → length buf < 2 ^ 16
      → (sealed : List ℕ) × (seal crypto aead nonce buf ≡ some sealed)
        × (length sealed ≡ length buf + 16)
        × (unseal crypto aead nonce sealed ≡ some buf)
  unfolding seal unseal
  unseal-seal aead nonce buf h =
      let (text, tag, e, n, t, d) = laws.decrypt-encrypt aead nonce buf h in
      let size : length (text ++ tag) ≡ length buf + 16 = omega (arith, length-append text tag) in
      let long : ltb (length (text ++ tag)) 16 ≡ false = ground arith in
      (
        text ++ tag,
        rw (seal, e) refl,
        size,
        rw
            (
              unseal,
              long,
              take-append_left text tag (length (text ++ tag) - 16) (omega arith),
              drop-append_left text tag (length (text ++ tag) - 16) (omega arith),
            )
            d,
      )

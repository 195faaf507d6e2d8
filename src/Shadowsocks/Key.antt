-- ===== src/Shadowsocks/Key.antt =====
-- crates/clash-proxynet/src/ss.rs: evp_bytes_to_key ends with a key of the length asked for.
use rust_clash.Common.{
  ℕ, zero, suc, ◌+◌, ◌*◌, ◌≤◌, ◌≡◌, refl, List, [], ◌++◌, arith, length, length-append, length-take,
  ltb, Bool-cases, inl, inr, true,
}
use rust_clash.Shadowsocks.{Crypto, stretch, evp_bytes_to_key}
use rust_clash.Shadowsocks.Laws.{CryptoLaws}

module _ (crypto : Crypto) (laws : CryptoLaws crypto) where
  -- One round, while the key is too short.
  stretch_round :
      (rounds size : ℕ) (pass key last : List ℕ)
      → ltb (length key) size ≡ true
      → stretch crypto (suc rounds) pass size key last
        ≡ stretch crypto rounds pass size
            (key ++ crypto.md5 (last ++ pass))
            (crypto.md5 (last ++ pass))
  unfolding stretch
  stretch_round rounds size pass key last t = rw t refl

  length-stretch :
      (rounds size : ℕ) (pass key last : List ℕ)
      → size ≤ length key + 16 * rounds
      → size ≤ length (stretch crypto rounds pass size key last)
  unfolding stretch
  length-stretch zero size pass key last h = omega arith
  length-stretch (suc rounds) size pass key last h = elim (Bool-cases (ltb (length key) size)) [
    | inl t ↦
        let digest = crypto.md5 (last ++ pass) in
        rw (stretch_round rounds size pass key last t) (
          length-stretch rounds size pass (key ++ digest) digest
            (omega (arith, h, length-append key digest, laws.length-md5 (last ++ pass))))
    | inr f ↦ rw f (ground arith)
  ]

  -- For every password the key has the length asked for: as many rounds as bytes are enough.
  pub length-evp_bytes_to_key :
      (pass : List ℕ) (size : ℕ) → length (evp_bytes_to_key crypto pass size) ≡ size
  unfolding evp_bytes_to_key
  length-evp_bytes_to_key pass size =
      let long = length-stretch size size pass [] [] (omega arith) in
      omega (arith, length-take size (stretch crypto size pass size [] []), long)

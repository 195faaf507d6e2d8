-- ===== src/Shadowsocks/Tests.antt =====
-- crates/clash-proxynet/src/ss.rs: a cryptography that satisfies the laws, and a run over it.
use rust_clash.Common.{
  ℕ, zero, suc, ◌≡◌, ◌≢◌, refl, some, List, [], ◌∷◌, ◌++◌, arith, length, All, length-replicate,
  replicate,
}
use rust_clash.Io.{Turn, reads}
use rust_clash.Io.Steps.{Gives}
use rust_clash.Shadowsocks.{SsCipher, key_len, Crypto, initial, evp_bytes_to_key, reader}
use rust_clash.Shadowsocks.Laws.{CryptoLaws}
use rust_clash.Shadowsocks.Nonce.{nonce_at, nonce_at_distinct}
use rust_clash.Shadowsocks.Key.{length-evp_bytes_to_key}
use rust_clash.Shadowsocks.Tunnel.{write_all, IsAmple, reads-write_all, reads-write_all-Front}

-- Plaintext with 16 zeros behind it, keys and digests of zeros.
abbrev plain : Crypto
plain = record {
  encrypt = λ aead nonce buf. some (buf, replicate 16 0);
  decrypt = λ aead nonce text tag. some text;
  expand = λ psk prefix size. some (replicate size 0);
  md5 = λ bytes. replicate 16 0;
}

plain_lawful : CryptoLaws plain
plain_lawful = record {
  decrypt-encrypt = λ aead nonce buf h. (buf, replicate 16 0, refl, refl, refl, refl);
  expand_some = λ psk prefix kind. (replicate (key_len kind) 0, refl);
  length-md5 = λ bytes. refl;
}

abbrev ample : List Turn
ample = replicate 17000 (Turn.gives 2000)

some_give : (n : ℕ) → All Gives (replicate n (Turn.gives 1))
some_give zero = tt
some_give (suc n) = (tt, some_give n)

ample_gives : (n : ℕ) → All Gives (replicate n (Turn.gives 2000))
ample_gives zero = tt
ample_gives (suc n) = (tt, ample_gives n)

ample-IsAmple : IsAmple plain ample
ample-IsAmple = (ample_gives 17000, omega (arith, length-replicate 17000 (Turn.gives 2000)))

abbrev psk : List ℕ
psk = replicate 16 0

abbrev draw : List ℕ
draw = replicate 16 7

abbrev wire : List ℕ
unfolding write_all
wire =
    write_all plain draw (initial SsCipher.aes128_gcm psk) (65 ∷ 66 ∷ 67 ∷ [])
      (ample ∷ ample ∷ ample ∷ [])

length-wire : length wire ≡ 53
unfolding write_all
length-wire = refl

-- Pieces of one byte, and a wait.
abbrev slow : List Turn
slow = Turn.waits ∷ Turn.gives 0 ∷ Turn.gives 30 ∷ Turn.breaks ∷ []

reads-write_all_example :
    reads
      (reader plain)
      (2 ∷ 2 ∷ 2 ∷ [])
      (initial SsCipher.aes128_gcm psk)
      wire
      (replicate 60 (Turn.gives 1))
    ≡ 65 ∷ 66 ∷ 67 ∷ []
unfolding write_all
reads-write_all_example =
    reads-write_all plain plain_lawful SsCipher.aes128_gcm psk draw (65 ∷ 66 ∷ 67 ∷ [])
      (ample ∷ ample ∷ ample ∷ []) (2 ∷ 2 ∷ 2 ∷ []) (replicate 60 (Turn.gives 1)) refl
      (ample-IsAmple, (ample-IsAmple, (ample-IsAmple, tt))) (omega arith) (omega arith)
      (omega arith, (omega arith, (omega arith, tt))) (omega arith) (some_give 60)
      (omega (arith, length-wire))

reads-write_all-Front_example :
    (left : List ℕ) × (65 ∷ 66 ∷ 67 ∷ []
      ≡ reads (reader plain) (2 ∷ 2 ∷ []) (initial SsCipher.aes128_gcm psk) wire slow ++ left)
unfolding wire write_all
reads-write_all-Front_example =
    reads-write_all-Front plain plain_lawful SsCipher.aes128_gcm psk draw (65 ∷ 66 ∷ 67 ∷ [])
      (ample ∷ ample ∷ ample ∷ []) (2 ∷ 2 ∷ []) slow refl
      (ample-IsAmple, (ample-IsAmple, (ample-IsAmple, tt))) (omega arith) (omega arith)
      (omega arith, (omega arith, tt))

nonce_at_distinct_example : nonce_at 255 ≢ nonce_at 256
nonce_at_distinct_example = nonce_at_distinct 255 256 (omega arith) (omega arith)

length-evp_bytes_to_key_example : length (evp_bytes_to_key plain (112 ∷ 119 ∷ []) 32) ≡ 32
length-evp_bytes_to_key_example = length-evp_bytes_to_key plain plain_lawful (112 ∷ 119 ∷ []) 32

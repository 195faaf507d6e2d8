-- ===== src/Shadowsocks.antt =====
-- crates/clash-proxynet/src/ss.rs: the Shadowsocks stream. The crates for the ciphers, HKDF and
-- MD5 are the operations of a `Crypto`; `Aead` is a cipher with its key. `read_buf` holds the
-- bytes that were read, up to `read_pos`, and after that the opened payload: the zeros and the
-- stale bytes behind `read_pos` are overwritten before they are read.
mod Laws
mod Nonce
mod Key
mod Frames
mod Read
mod Write
mod Tunnel
mod Tests
use rust_clash.Common.{
  ℕ, zero, suc, ◌+◌, ◌-◌, ◌*◌, ◌%◌, ◌^◌, Bool, true, false, ◌||◌, Option, none, some, List, [], ◌∷◌,
  ◌++◌, ltb, leb, ◌==◌, if◌then◌else◌, length, take, drop, at, replicate, be16, from_be16, list_beq,
  nat_eq,
}
use Prim.Native.Nat.{min}
use rust_clash.Text.{Str, trim, to_ascii_lowercase, codes}
use rust_clash.Utf8.{as_bytes}
use rust_clash.Io.{IoError, Poll, Turn, Next, Fed, Reader}

pub data SsCipher : Type 0 where
  aes128_gcm aes256_gcm chacha20_poly1305 : SsCipher

unfoldable pub parse : Str → Option SsCipher
unfolding trim to_ascii_lowercase
parse name =
    let low = to_ascii_lowercase (trim name) in
    if list_beq low (codes "aes-128-gcm") || list_beq low (codes "aead_aes_128_gcm")
    then some SsCipher.aes128_gcm
    else if list_beq low (codes "aes-256-gcm") || list_beq low (codes "aead_aes_256_gcm")
    then some SsCipher.aes256_gcm
    else if list_beq low (codes "chacha20-ietf-poly1305")
        || list_beq low (codes "chacha20-poly1305")
        || list_beq low (codes "aead_chacha20_ietf_poly1305")
    then some SsCipher.chacha20_poly1305
    else none

abbrev pub key_len : SsCipher → ℕ
key_len SsCipher.aes128_gcm = 16
key_len SsCipher.aes256_gcm = 32
key_len SsCipher.chacha20_poly1305 = 32

pub record Aead : Type 0 where
  pub kind : SsCipher
  pub key : List ℕ

-- Of a cipher: the ciphertext and the tag, and the plaintext when the tag is right. HKDF by the
-- key, the salt and the length.
pub record Crypto : Type 0 where
  pub encrypt : Aead → List ℕ → List ℕ → Option (List ℕ × List ℕ)
  pub decrypt : Aead → List ℕ → List ℕ → List ℕ → Option (List ℕ)
  pub expand : List ℕ → List ℕ → ℕ → Option (List ℕ)
  pub md5 : List ℕ → List ℕ

abbrev pub tag_len : ℕ
tag_len = 16

abbrev pub max_payload : ℕ
max_payload = 0x3fff

-- `NonceSeq`, the number of the next nonce with its low byte first.
abbrev pub NonceSeq : Type 0
NonceSeq = List ℕ

abbrev pub new_nonce : NonceSeq
new_nonce = replicate 12 0

-- `next`, whose answer is the sequence before it.
unfoldable pub next : NonceSeq → NonceSeq
next [] = []
next (b ∷ buf) =
    let carry = next buf in let c = (b + 1) % 2 ^ 8 in if c == 0 then c ∷ carry else c ∷ buf

pub data ReadState : Type 0 where
  salt length_of : ReadState
  payload_of : ℕ → ReadState
  pending_of : ℕ → ReadState

pub data WriteState : Type 0 where
  fresh chunk : WriteState
  flush : ℕ → ℕ → ℕ → WriteState

pub record ShadowedStream : Type 0 where
  pub kind : SsCipher
  pub psk : List ℕ
  pub enc : Option Aead
  pub dec : Option Aead
  pub enc_nonce : NonceSeq
  pub dec_nonce : NonceSeq
  pub read_buf : List ℕ
  pub write_buf : List ℕ
  pub read_state : ReadState
  pub write_state : WriteState

-- Up to the state `Flush`, or an error.
pub data Staged : Type 0 where
  refused : IoError → ShadowedStream → Staged
  flushing : ShadowedStream → Staged

abbrev pub initial : SsCipher → List ℕ → ShadowedStream
initial kind psk = record {
  kind = kind;
  psk = psk;
  enc = none;
  dec = none;
  enc_nonce = new_nonce;
  dec_nonce = new_nonce;
  read_buf = [];
  write_buf = [];
  read_state = ReadState.salt;
  write_state = WriteState.fresh;
}

module _ (crypto : Crypto) where
  unfoldable pub seal : Aead → NonceSeq → List ℕ → Option (List ℕ)
  seal aead nonce buf = elim (crypto.encrypt aead nonce buf) [
    | none ↦ none
    | some (text, tag) ↦ some (text ++ tag)
  ]

  -- `open`, a reserved word.
  unfoldable pub unseal : Aead → NonceSeq → List ℕ → Option (List ℕ)
  unseal aead nonce buf =
      let n = length buf - tag_len in
      if ltb (length buf) tag_len then none else crypto.decrypt aead nonce (take n buf) (drop n buf)

  -- The loop of `evp_bytes_to_key`, for at most `rounds` rounds.
  unfoldable pub stretch : ℕ → List ℕ → ℕ → List ℕ → List ℕ → List ℕ
  stretch zero pass size key last = key
  stretch (suc rounds) pass size key last =
      let digest = crypto.md5 (last ++ pass) in
      let longer = stretch rounds pass size (key ++ digest) digest in
      if ltb (length key) size then longer else key

  unfoldable pub evp_bytes_to_key : List ℕ → ℕ → List ℕ
  unfolding stretch
  evp_bytes_to_key pass size = take size (stretch size pass size [] [])

  unfoldable pub hkdf_sha1 : List ℕ → List ℕ → ℕ → Option (List ℕ)
  hkdf_sha1 psk prefix out_len = crypto.expand psk prefix out_len

  -- A stream of the cipher that `method` names.
  unfoldable pub new : Str → Str → Option ShadowedStream
  unfolding parse evp_bytes_to_key as_bytes
  new method password = elim (parse method) [
    | none ↦ none
    | some kind ↦ some (initial kind (evp_bytes_to_key (as_bytes password) (key_len kind)))
  ]

  -- The bytes that `poll_read_exact` is asked for.
  abbrev pub exact_size : SsCipher → ReadState → ℕ
  exact_size kind ReadState.salt = key_len kind
  exact_size kind ReadState.length_of = 2 + tag_len
  exact_size kind (ReadState.payload_of n) = n + tag_len
  exact_size kind (ReadState.pending_of n) = 0

  -- `Pending`: as much of the payload as the buffer has room for.
  unfoldable pub deliver : ℕ → ShadowedStream → ℕ → Next ShadowedStream
  deliver room s n =
      let count = min room n in
      Next.stop (Poll.ready (take count s.read_buf)) (record s {
        read_buf = drop count s.read_buf;
        read_state = if ltb count n then ReadState.pending_of (n - count) else ReadState.length_of;
      })

  unfoldable pub settle_in : ReadState → ℕ → ShadowedStream → Next ShadowedStream
  unfolding deliver
  settle_in (ReadState.pending_of n) room s = deliver room s n
  settle_in state room s = Next.want (exact_size s.kind state - length s.read_buf) s

  unfoldable pub settle : ℕ → ShadowedStream → Next ShadowedStream
  unfolding settle_in
  settle room s = settle_in s.read_state room s

  -- What the loop does with a buffer that `poll_read_exact` has filled.
  unfoldable pub read_salt : ShadowedStream → List ℕ → Fed ShadowedStream
  unfolding hkdf_sha1
  read_salt s buf = elim (hkdf_sha1 s.psk buf (key_len s.kind)) [
    | none ↦ Fed.done (Poll.failed IoError.other) (record s { read_buf = [] })
    | some key ↦ Fed.again (record s {
      dec = some (record { kind = s.kind; key = key });
      read_buf = [];
      read_state = ReadState.length_of;
    })
  ]

  -- With the next nonce, and nothing read: what a failure to open leaves.
  abbrev pub opened : ShadowedStream → ShadowedStream
  opened s = record s { dec_nonce = next s.dec_nonce; read_buf = [] }

  unfoldable pub read_length : ShadowedStream → List ℕ → Fed ShadowedStream
  unfolding next unseal
  read_length s buf = elim s.dec [
    | none ↦ Fed.done (Poll.failed IoError.panicked) (opened s)
    | some aead ↦ elim (unseal aead s.dec_nonce buf) [
      | none ↦ Fed.done (Poll.failed IoError.other) (opened s)
      | some plain ↦
          if ltb (length plain) 2
          then Fed.done (Poll.failed IoError.panicked) (opened s)
          else Fed.again (record s {
            dec_nonce = next s.dec_nonce;
            read_buf = [];
            read_state = ReadState.payload_of (from_be16 (at plain 0) (at plain 1));
          })
    ]
  ]

  unfoldable pub read_payload : ShadowedStream → ℕ → List ℕ → Fed ShadowedStream
  unfolding next unseal
  read_payload s n buf = elim s.dec [
    | none ↦ Fed.done (Poll.failed IoError.panicked) (opened s)
    | some aead ↦ elim (unseal aead s.dec_nonce buf) [
      | none ↦ Fed.done (Poll.failed IoError.other) (opened s)
      | some plain ↦ Fed.again (record s {
        dec_nonce = next s.dec_nonce;
        read_buf = plain;
        read_state = ReadState.pending_of n;
      })
    ]
  ]

  unfoldable pub filled : ReadState → ShadowedStream → List ℕ → Fed ShadowedStream
  unfolding read_salt read_length read_payload
  filled ReadState.salt s buf = read_salt s buf
  filled ReadState.length_of s buf = read_length s buf
  filled (ReadState.payload_of n) s buf = read_payload s n buf
  filled (ReadState.pending_of n) s buf = Fed.again s

  -- The end of the inner stream: that of this one, where a length would be read.
  unfoldable pub at_eof : ReadState → ShadowedStream → Fed ShadowedStream
  at_eof ReadState.length_of s = Fed.done (Poll.ready []) s
  at_eof _ s = Fed.done (Poll.failed IoError.unexpected_eof) s

  unfoldable pub feed : ShadowedStream → List ℕ → Fed ShadowedStream
  unfolding filled at_eof
  feed s [] = at_eof s.read_state s
  feed s (g ∷ got) =
      let buf = s.read_buf ++ (g ∷ got) in
      if ltb (length buf) (exact_size s.kind s.read_state)
      then Fed.again (record s { read_buf = buf })
      else filled s.read_state s buf

  -- `poll_read` is `Io.poll` of this reader.
  abbrev pub reader : Reader ShadowedStream
  reader = record { settle = settle; feed = feed }

  -- A chunk of the caller's bytes, sealed behind what `write_buf` holds.
  unfoldable pub stage_chunk : ShadowedStream → List ℕ → Staged
  unfolding seal next
  stage_chunk s buf =
      let consume = min (length buf) max_payload in
      elim s.enc [
        | none ↦ Staged.refused IoError.panicked (record s { enc_nonce = next s.enc_nonce })
        | some aead ↦ elim (seal aead s.enc_nonce (be16 consume)) [
          | none ↦ Staged.refused IoError.other (record s { enc_nonce = next s.enc_nonce })
          | some piece ↦ elim (seal aead (next s.enc_nonce) (take consume buf)) [
            | none ↦ Staged.refused IoError.other (record s { enc_nonce = next (next s.enc_nonce) })
            | some payload ↦
                let staged = s.write_buf ++ (piece ++ payload) in
                Staged.flushing (record s {
                  enc_nonce = next (next s.enc_nonce);
                  write_buf = staged;
                  write_state = WriteState.flush consume (length staged) 0;
                })
          ]
        ]
      ]

  -- The loop of `poll_write` up to `Flush`; `random` is what `fill_bytes` draws for a salt.
  unfoldable pub stage : List ℕ → ShadowedStream → List ℕ → Staged
  unfolding stage_chunk hkdf_sha1
  stage random s buf = elim s.write_state [
    | WriteState.flush consumed total written ↦ Staged.flushing s
    | WriteState.chunk ↦ stage_chunk s buf
    | WriteState.fresh ↦ elim (hkdf_sha1 s.psk random (key_len s.kind)) [
      | none ↦ Staged.refused IoError.other (record s { write_buf = random })
      | some key ↦
          stage_chunk
            (record s {
              enc = some (record { kind = s.kind; key = key });
              write_buf = random;
              write_state = WriteState.chunk;
            })
            buf
    ]
  ]

-- The answer with the number of bytes, the state, what the inner stream was given, and the turns
-- that are left. Each turn takes at most so many bytes.
abbrev pub Written : Type 0
Written = Poll ℕ × ShadowedStream × List ℕ × List Turn

abbrev pub give : List ℕ → Written → Written
give part (r, s, wire, turns) = (r, s, part ++ wire, turns)

unfoldable pub flush_loop : ℕ → ℕ → ℕ → ShadowedStream → List Turn → Written
flush_loop consumed total written s [] =
    (Poll.pending, record s { write_state = WriteState.flush consumed total written }, [], [])
flush_loop consumed total written s (Turn.waits ∷ turns) =
    (Poll.pending, record s { write_state = WriteState.flush consumed total written }, [], turns)
flush_loop consumed total written s (Turn.breaks ∷ turns) = (
  Poll.failed IoError.inner,
  record s { write_state = WriteState.flush consumed total written },
  [],
  turns,
)
flush_loop consumed total written s (Turn.gives k ∷ turns) =
    let n = min (suc k) (length s.write_buf) in
    let sent = record s { write_buf = drop n s.write_buf } in
    let more = give (take n s.write_buf) (flush_loop consumed total (written + n) sent turns) in
    if n == 0
    then (Poll.failed IoError.unexpected_eof, s, [], turns)
    else if leb total (written + n)
    then (
      Poll.ready consumed,
      record sent { write_state = WriteState.chunk },
      take n s.write_buf,
      turns,
    )
    else more

unfoldable pub flush_staged : ShadowedStream → List Turn → Written
unfolding flush_loop
flush_staged s turns = elim s.write_state [
  | WriteState.flush consumed total written ↦ flush_loop consumed total written s turns
  | _ ↦ (Poll.pending, s, [], turns)
]

unfoldable pub poll_write : Crypto → List ℕ → ShadowedStream → List ℕ → List Turn → Written
unfolding stage flush_staged
poll_write crypto random s buf turns = elim (stage crypto random s buf) [
  | Staged.refused e t ↦ (Poll.failed e, t, [], turns)
  | Staged.flushing t ↦ flush_staged t turns
]

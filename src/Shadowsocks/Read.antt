-- ===== src/Shadowsocks/Read.antt =====
-- crates/clash-proxynet/src/ss.rs: every step of the reader keeps what is due.
use rust_clash.Common.{
  ℕ, ◌+◌, ◌-◌, ◌<◌, ◌≤◌, ◌≡◌, ◌≢◌, refl, sym, ◌∙◌, ap, some, List, [], ◌∷◌, ◌++◌, arith, length,
  concat, be16, from_be16-be16, length-append, take, drop, take-append-drop, length-take,
  length-drop, ltb, ltb→lt, Bool-cases, inl, inr, cut_append,
}
use mathlib.Core.Path.{subst}
use mathlib.Core.List.{append_assoc}
use Prim.Native.Nat.{min}
use rust_clash.Io.{Next}
use rust_clash.Io.Reads.{length_zero}
use rust_clash.Io.Steps.{Feeds, Settles, IsLawful}
use rust_clash.Shadowsocks.{
  key_len, Aead, Crypto, unseal, next, ReadState, ShadowedStream, exact_size, deliver, settle_in,
  settle, read_salt, read_length, read_payload, filled, at_eof, feed, reader,
}
use rust_clash.Shadowsocks.Laws.{CryptoLaws}
use rust_clash.Shadowsocks.Frames.{
  sealed, frames, IsChunk, IsWire, IsSalted, IsInside, DueIn, Due, length-sealed, unseal-sealed,
}

module _ (crypto : Crypto) (laws : CryptoLaws crypto) where
  -- The steps that `poll_read_exact` ends with.
  read_salt-Feeds :
      (s : ShadowedStream) (buf got rest payload : List ℕ)
      → length buf ≡ key_len s.kind
      → 0 < length got
      → IsSalted crypto s.kind s.psk s.dec_nonce (buf ++ rest) payload
      → Feeds (Due crypto) got rest payload (read_salt crypto s buf)
  unfolding read_salt
  read_salt-Feeds s buf got rest payload n g (prefix, key, tail, m, e, cut, w) =
      let (same, left) = cut_append buf rest prefix tail cut (n ∙ sym m) in
      let known : crypto.expand s.psk buf (key_len s.kind) ≡ some key = rw same e in
      let aead : Aead = record { kind = s.kind; key = key } in
      let wire : IsWire crypto aead s.dec_nonce rest payload = rw left w in
      rw (read_salt, known) ((aead, refl, wire, omega arith), g)

  read_length-Feeds :
      (s : ShadowedStream) (aead : Aead) (buf got rest payload : List ℕ)
      → s.dec ≡ some aead
      → length buf ≡ 18
      → 0 < length got
      → IsWire crypto aead s.dec_nonce (buf ++ rest) payload
      → Feeds (Due crypto) got rest payload (read_length crypto s buf)
  unfolding read_length frames
  read_length-Feeds s aead buf got rest payload d n g ([], all, e, q) =
      absurd (omega (arith, ap length e, length-append buf rest))
  read_length-Feeds s aead buf got rest payload d n g (p ∷ ps, all, e, q) =
      let head = sealed crypto aead s.dec_nonce (be16 (length p)) in
      let (same, left) = cut_append buf rest head _ e (
        omega
          (arith, length-sealed crypto laws aead s.dec_nonce (be16 (length p)) (omega arith))) in
      let plain : unseal crypto aead s.dec_nonce buf ≡ some (be16 (length p)) =
        rw same (unseal-sealed crypto laws aead s.dec_nonce (be16 (length p)) (omega arith)) in
      let size = from_be16-be16 (length p) (omega (arith, all.0)) in
      rw (read_length, d, plain, size)
        (
          (
            aead,
            d,
            (
              p,
              all.0,
              refl,
              (
                frames crypto aead (next (next s.dec_nonce)) ps,
                concat ps,
                left,
                q,
                (ps, all.1, refl, refl),
              ),
            ),
            omega arith,
          ),
          g,
        )

  read_payload-Feeds :
      (s : ShadowedStream) (aead : Aead) (p buf got rest payload : List ℕ)
      → s.dec ≡ some aead
      → IsChunk crypto p
      → length buf ≡ length p + 16
      → 0 < length got
      → IsInside crypto aead s.dec_nonce p (buf ++ rest) payload
      → Feeds (Due crypto) got rest payload (read_payload crypto s (length p) buf)
  unfolding read_payload
  read_payload-Feeds s aead p buf got rest payload d c n g (tail, left, e, q, w) =
      let (same, behind) =
        cut_append buf rest (sealed crypto aead s.dec_nonce p) tail e
          (omega (arith, n, length-sealed crypto laws aead s.dec_nonce p (omega (arith, c)))) in
      let plain : unseal crypto aead s.dec_nonce buf ≡ some p =
        rw same (unseal-sealed crypto laws aead s.dec_nonce p (omega (arith, c))) in
      let wire : IsWire crypto aead (next s.dec_nonce) rest left = rw behind w in
      rw (read_payload, d, plain) ((aead, d, refl, c.0, (left, wire, q)), g)

  no_wire :
      (aead : Aead) (nonce buf payload : List ℕ)
      → length buf < 18
      → IsWire crypto aead nonce buf payload
      → payload ≡ []
  unfolding frames
  no_wire aead nonce buf payload h ([], all, e, q) = q
  no_wire aead nonce buf payload h (p ∷ ps, all, e, q) =
      let head = sealed crypto aead nonce (be16 (length p)) in
      absurd (
        omega (
          arith,
          ap length e,
          length-append head
              (sealed crypto aead (next nonce) p ++ frames crypto aead (next (next nonce)) ps),
          length-sealed crypto laws aead nonce (be16 (length p)) (omega arith),
        ))

  -- At the end of the inner stream.
  at_eof-Feeds :
      (state : ReadState) (s : ShadowedStream) (payload : List ℕ)
      → s.read_state ≡ state
      → ((n : ℕ) → state ≢ ReadState.pending_of n)
      → DueIn crypto state s [] payload
      → Feeds (Due crypto) [] [] payload (at_eof crypto state s)
  unfolding at_eof
  at_eof-Feeds ReadState.salt s payload h k ((prefix, key, rest, m, e, cut, w), short) = absurd (
      omega
        (arith, m, short, ap length cut, length-append prefix rest, length-append s.read_buf []))
  at_eof-Feeds ReadState.length_of s payload h k d =
      let (aead, e, w, short) = d in
      let none_left =
        no_wire aead s.dec_nonce (s.read_buf ++ []) payload
          (omega (arith, short, length-append s.read_buf [])) w in
      (payload, refl, rw h d, λ _. none_left)
  at_eof-Feeds (ReadState.payload_of n) s payload h k
        (aead, e, (p, c, m, (tail, left, cut, q, w)), short) =
      absurd (
        omega (
          arith,
          m,
          short,
          c,
          ap length cut,
          length-append (sealed crypto aead s.dec_nonce p) tail,
          length-sealed crypto laws aead s.dec_nonce p (omega (arith, c)),
          length-append s.read_buf [],
        ))
  at_eof-Feeds (ReadState.pending_of n) s payload h k d = absurd (k n refl)

  -- More bytes, but not all.
  partly-Feeds :
      (state : ReadState) (s : ShadowedStream) (got rest payload : List ℕ)
      → s.read_state ≡ state
      → ((n : ℕ) → state ≢ ReadState.pending_of n)
      → length (s.read_buf ++ got) < exact_size crypto s.kind state
      → DueIn crypto state s (got ++ rest) payload
      → DueIn crypto state (record s { read_buf = s.read_buf ++ got }) rest payload
  partly-Feeds ReadState.salt s got rest payload h k short d =
      (rw (append_assoc s.read_buf got rest) d.0, short)
  partly-Feeds ReadState.length_of s got rest payload h k short (aead, e, w, b) =
      (aead, e, rw (append_assoc s.read_buf got rest) w, short)
  partly-Feeds (ReadState.payload_of n) s got rest payload h k short (aead, e, i, b) =
      (aead, e, rw (append_assoc s.read_buf got rest) i, short)
  partly-Feeds (ReadState.pending_of n) s got rest payload h k short d = absurd (k n refl)

  filled-Feeds :
      (state : ReadState) (s : ShadowedStream) (got rest payload : List ℕ)
      → s.read_state ≡ state
      → ((n : ℕ) → state ≢ ReadState.pending_of n)
      → 0 < length got
      → length (s.read_buf ++ got) ≡ exact_size crypto s.kind state
      → DueIn crypto state s (got ++ rest) payload
      → Feeds (Due crypto) got rest payload (filled crypto state s (s.read_buf ++ got))
  unfolding filled
  filled-Feeds ReadState.salt s got rest payload h k g n d =
      read_salt-Feeds s (s.read_buf ++ got) got rest payload n g
        (rw (append_assoc s.read_buf got rest) d.0)
  filled-Feeds ReadState.length_of s got rest payload h k g n (aead, e, w, b) =
      read_length-Feeds s aead (s.read_buf ++ got) got rest payload e n g
        (rw (append_assoc s.read_buf got rest) w)
  filled-Feeds (ReadState.payload_of m) s got rest payload h k g n (aead, e, (p, c, q, i), b) =
      rw q (
        read_payload-Feeds s aead p (s.read_buf ++ got) got rest payload e c
          (n ∙ ap (λ x. x + 16) q) g (rw (append_assoc s.read_buf got rest) i))
  filled-Feeds (ReadState.pending_of m) s got rest payload h k g n d = absurd (k m refl)

  feed-Feeds :
      (s : ShadowedStream) (got rest payload : List ℕ)
      → ((n : ℕ) → s.read_state ≢ ReadState.pending_of n)
      → length got ≤ exact_size crypto s.kind s.read_state - length s.read_buf
      → (length got ≡ 0 → rest ≡ [])
      → length s.read_buf < exact_size crypto s.kind s.read_state
      → Due crypto s (got ++ rest) payload
      → Feeds (Due crypto) got rest payload (feed crypto s got)
  unfolding feed
  feed-Feeds s [] rest payload k few end short d =
      let none_left = end refl in
      rw none_left (at_eof-Feeds s.read_state s payload refl k (rw (← none_left) d))
  feed-Feeds s (g ∷ got) rest payload k few end short d =
      elim (Bool-cases
        (ltb (length (s.read_buf ++ (g ∷ got))) (exact_size crypto s.kind s.read_state))) [
          | inl t ↦
              rw (feed, t)
                (
                  partly-Feeds s.read_state s (g ∷ got) rest payload refl k (ltb→lt _ _ t) d,
                  omega arith,
                )
          | inr f ↦
              let full : length (s.read_buf ++ (g ∷ got)) ≡ exact_size crypto s.kind s.read_state =
                ground (arith, length-append s.read_buf (g ∷ got)) in
              rw (feed, f)
                (filled-Feeds s.read_state s (g ∷ got) rest payload refl k (omega arith) full d)
        ]

  deliver-Settles :
      (room n : ℕ) (s : ShadowedStream) (bytes payload : List ℕ)
      → 0 < room
      → s.read_state ≡ ReadState.pending_of n
      → DueIn crypto (ReadState.pending_of n) s bytes payload
      → Settles (Due crypto) (feed crypto) bytes payload (deliver crypto room s n)
  unfolding deliver
  deliver-Settles room n s bytes payload r h (aead, e, m, p, (left, w, q)) =
      let count = min room n in
      let front = take count s.read_buf in
      let back = drop count s.read_buf in
      let whole : payload ≡ front ++ (back ++ left) =
        q
        ∙ ap (λ b. b ++ left) (sym (take-append-drop count s.read_buf))
        ∙ append_assoc front back left in
      let some_part : front ≡ [] → payload ≡ [] =
        λ nil. absurd (omega (arith, ap length nil, length-take count s.read_buf)) in
      elim (Bool-cases (ltb count n)) [
        | inl t ↦ rw t (
          back ++ left,
          whole,
          (
            aead,
            e,
            omega (arith, length-drop count s.read_buf),
            omega (arith, ltb→lt count n t),
            (left, w, refl),
          ),
          some_part,
        )
        | inr f ↦
            let nothing : back ≡ [] =
              length_zero back (ground (arith, length-drop count s.read_buf)) in
            rw (f, nothing) (left, rw nothing at whole, (aead, e, w, omega arith), some_part)
      ]

  wants :
      (state : ReadState) (s : ShadowedStream) (bytes payload : List ℕ)
      → s.read_state ≡ state
      → ((n : ℕ) → state ≢ ReadState.pending_of n)
      → length s.read_buf < exact_size crypto s.kind state
      → DueIn crypto state s bytes payload
      → Settles
          (Due crypto)
          (feed crypto)
          bytes
          payload
          (Next.want (exact_size crypto s.kind state - length s.read_buf) s)
  wants state s bytes payload h =
      subst
        (λ st.
          ((n : ℕ) → st ≢ ReadState.pending_of n)
          → length s.read_buf < exact_size crypto s.kind st
          → DueIn crypto st s bytes payload
          → Settles (Due crypto) (feed crypto) bytes payload
              (Next.want (exact_size crypto s.kind st - length s.read_buf) s))
        h
        (λ k short d. (
          omega arith,
          d,
          λ got rest few end cut. feed-Feeds s got rest payload k few end short (rw (← cut) d),
        ))

  settle_in-Settles :
      (state : ReadState) (room : ℕ) (s : ShadowedStream) (bytes payload : List ℕ)
      → 0 < room
      → s.read_state ≡ state
      → DueIn crypto state s bytes payload
      → Settles (Due crypto) (feed crypto) bytes payload (settle_in crypto state room s)
  unfolding settle_in
  settle_in-Settles ReadState.salt room s bytes payload r h d =
      wants ReadState.salt s bytes payload h (λ n e. cc e) d.1 d
  settle_in-Settles ReadState.length_of room s bytes payload r h d =
      wants ReadState.length_of s bytes payload h (λ n e. cc e) d.3 d
  settle_in-Settles (ReadState.payload_of m) room s bytes payload r h d =
      wants (ReadState.payload_of m) s bytes payload h (λ n e. cc e) d.3 d
  settle_in-Settles (ReadState.pending_of m) room s bytes payload r h d =
      deliver-Settles room m s bytes payload r h d

  pub reader-IsLawful : IsLawful (Due crypto) (reader crypto)
  unfolding settle
  reader-IsLawful room s bytes payload r d =
      settle_in-Settles s.read_state room s bytes payload r refl d

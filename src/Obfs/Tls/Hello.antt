-- ===== src/Obfs/Tls/Hello.antt =====
-- crates/clash-proxynet/src/obfs.rs: the lengths inside the hello are those of its parts.
use rust_clash.Common.{
  ℕ, ◌+◌, ◌*◌, ◌^◌, ◌<◌, ◌≡◌, refl, ◌∙◌, ap, List, ◌∷◌, ◌++◌, arith, length, be16, from_be16,
  from_be16-be16, at, at-drop, length-append, take, drop, drop-drop, length-drop, take-append_left,
  drop-append_left,
}
use rust_clash.Obfs.Tls.{Draws, ticket, sni, hello_body, suites, others, build_tls_client_hello}

module _ (draws : Draws) (host payload : List ℕ) where
  -- Behind the list of the compression methods.
  extensions : List ℕ
  extensions =
      be16 (length (ticket payload) + length (sni host) + length others)
      ++ (ticket payload ++ (sni host ++ others))

  after_session : List ℕ
  unfolding extensions
  after_session = be16 (length suites) ++ (suites ++ (1 ∷ 0 ∷ extensions))

  length-extensions : length extensions ≡ 81 + (length payload + length host)
  unfolding extensions
  length-extensions =
      omega (arith, length-append payload (sni host ++ others), length-append host others)

  length-hello_body :
      length draws.random ≡ 32
      → length draws.session ≡ 32
      → length (hello_body draws host payload) ≡ 208 + (length payload + length host)
  unfolding after_session extensions
  length-hello_body r s = omega (
    arith,
    length-append (drop 4 draws.random) (32 ∷ (draws.session ++ after_session)),
    length-append draws.session after_session,
    length-extensions,
    length-drop 4 draws.random,
    r,
    s,
  )

  pub length-build_tls_client_hello :
      length draws.random ≡ 32
      → length draws.session ≡ 32
      → length (build_tls_client_hello draws host payload) ≡ 217 + (length payload + length host)
  unfolding build_tls_client_hello
  length-build_tls_client_hello r s = omega (arith, length-hello_body r s)

  extensions_at :
      length draws.random ≡ 32
      → length draws.session ≡ 32
      → drop 136 (build_tls_client_hello draws host payload) ≡ extensions
  unfolding build_tls_client_hello after_session extensions
  extensions_at r s =
      let h = build_tls_client_hello draws host payload in
      let middle = 32 ∷ (draws.session ++ after_session) in
      drop-drop 15 121 h
      ∙ drop-drop 28 93 (drop 4 draws.random ++ middle)
      ∙ ap (drop 93) (
          drop-append_left (drop 4 draws.random) middle 28
            (omega (arith, length-drop 4 draws.random, r)))
      ∙ drop-drop 32 60 (draws.session ++ after_session)
      ∙ ap (drop 60) (drop-append_left draws.session after_session 32 (omega (arith, s)))

  -- With 32 random bytes and a session of 32, when payload and host have together fewer than 65,324
  -- bytes: the length of the record, that of the handshake and that of the extensions are what
  -- stands behind them in the hello, and the session ticket holds the payload.
  pub build_tls_client_hello_lem :
      length draws.random ≡ 32
      → length draws.session ≡ 32
      → length payload + length host < 65324
      → (let h = build_tls_client_hello draws host payload in
          (from_be16 (at h 3) (at h 4) ≡ length (drop 5 h))
          × (at h 6 * 2 ^ 16 + from_be16 (at h 7) (at h 8) ≡ length (drop 9 h))
          × (from_be16 (at h 136) (at h 137) ≡ length (drop 138 h))
          × (take (from_be16 (at h 140) (at h 141)) (drop 142 h) ≡ payload))
  unfolding build_tls_client_hello extensions
  build_tls_client_hello_lem r s n =
      let h = build_tls_client_hello draws host payload in
      let size = length-hello_body r s in
      let ext_len = length (ticket payload) + length (sni host) + length others in
      let rec_len = 4 + length (hello_body draws host payload) in
      let there = extensions_at r s in
      let word : (k : ℕ) → at h (136 + k) ≡ at extensions k =
        λ k. at-drop 136 k h ∙ ap (λ e. at e k) there in
      let behind : (k : ℕ) → drop (136 + k) h ≡ drop k extensions =
        λ k. drop-drop 136 k h ∙ ap (drop k) there in
      let ticket_len = from_be16-be16 (length payload) (omega (arith, n)) in
      (
        from_be16-be16 rec_len (omega (arith, size, n)) ∙ omega arith,
        omega (arith, size, n),
        rw (word 0, word 1, behind 2)
            (from_be16-be16 ext_len (omega (arith, n))
              ∙ omega
                  (arith, length-append payload (sni host ++ others), length-append host others)),
        rw (word 4, word 5, behind 6, ticket_len)
            (take-append_left payload (sni host ++ others) (length payload) refl),
      )

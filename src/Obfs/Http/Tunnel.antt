-- ===== src/Obfs/Http/Tunnel.antt =====
-- crates/clash-proxynet/src/obfs.rs: what one stream writes, another one reads.
use rust_clash.Common.{
  ℕ, ◌+◌, ◌<◌, ◌≤◌, ◌≡◌, refl, ◌∙◌, ap, false, none, List, [], ◌∷◌, ◌++◌, arith, length, All,
  length-append, length-drop, contains, nat_eq,
}
use mathlib.Core.List.{append-nil}
use rust_clash.Text.{Str}
use rust_clash.Utf8.{as_bytes}
use rust_clash.Io.{Turn, reads}
use rust_clash.Io.Steps.{Gives}
use rust_clash.Io.Reads.{reads_whole, length_zero}
use rust_clash.Io.Writer.{write_all}
use rust_clash.Io.Writer.Law.{write_all_keeps, write_all_whole, Accounts}
use rust_clash.Obfs.Http.{
  HttpWrite, Draws, new_read, new_write, reader, writer, build_http_request, find_header_end,
}
use rust_clash.Obfs.Http.Header.{find_header_end_bounds}
use rust_clash.Obfs.Http.Read.{Due, reader-IsLawful}
use rust_clash.Obfs.Http.Write.{Account, cost, writer-IsHonest, request_ends}

nothing_found : find_header_end [] ≡ none
unfolding find_header_end
nothing_found = refl

module _ (draws : Draws) (path host : Str) where
  -- When nothing is left, the wire is the request with the buffer.
  finished :
      (buf : List ℕ) (r : HttpWrite × List ℕ × List ℕ)
      → 0 < length buf
      → r.2 ≡ []
      → Accounts
          (Account draws path host buf)
          (cost draws path host)
          (writer draws path host)
          (writer-IsHonest draws path host buf)
          []
          buf
          r
      → r ≡ (HttpWrite.pass, build_http_request draws path host buf, [])
  finished buf (state, wire, b ∷ left) p none_left h = absurd (omega (arith, ap length none_left))
  finished buf (HttpWrite.first, wire, []) p none_left (taken, a, e) =
      absurd (omega (arith, p, ap length e, ap length a.1, length-append taken []))
  finished buf (HttpWrite.flush cur, wire, []) p none_left (taken, a, e) =
      absurd (omega (arith, p, ap length e, ap length a.2, length-append taken []))
  finished buf (HttpWrite.pass, wire, []) p none_left (taken, (more, o, t), e) =
      let nothing : more ≡ [] =
        length_zero more (
          omega
            (arith, ap length e, ap length t, length-append taken [], length-append buf more)) in
      let wire_is : wire ≡ build_http_request draws path host buf =
        o
        ∙ ap (λ m. build_http_request draws path host buf ++ m) nothing
        ∙ append-nil (build_http_request draws path host buf) in
      ap (λ w. (HttpWrite.pass, w, [])) wire_is

  cheap :
      (buf : List ℕ) (state : HttpWrite) (out taken rest : List ℕ)
      → Account draws path host buf state out taken rest
      → cost draws path host state rest ≤ length (build_http_request draws path host buf)
  unfolding cost
  cheap buf HttpWrite.first out taken rest a =
      omega (arith, ap (λ r. length (build_http_request draws path host r)) a.2)
  cheap buf (HttpWrite.flush cur) out taken rest a =
      omega (arith, ap length a.1, length-append out cur)
  cheap buf HttpWrite.pass out taken rest a = omega arith

  -- Streams dressed as HTTP over one another, with a path, a host and a key without a carriage
  -- return. A new stream writes a buffer that is not empty, with turns that let bytes through, for
  -- each call more than the request has bytes, and as many calls as bytes. Then nothing of the
  -- buffer is left, and what went out is the request. Another new stream, that reads it, when its
  -- header has at most 4096 bytes, in whatever pieces it arrives, with as many calls as bytes, each
  -- with room in its buffer, delivers exactly the buffer.
  pub reads_http_wire :
      (buf rooms : List ℕ) (supply : List (List Turn)) (turns : List Turn)
      → contains 13 (as_bytes path) ≡ false
      → contains 13 (as_bytes host) ≡ false
      → contains 13 (as_bytes draws.ws) ≡ false
      → length (build_http_request draws path host buf) ≤ 4096 + length buf
      → 0 < length buf
      → length buf ≤ length supply
      → All (λ t. All Gives t × (length (build_http_request draws path host buf) < length t)) supply
      → All (λ room. 0 < room) rooms
      → length buf ≤ length rooms
      → All Gives turns
      → length (build_http_request draws path host buf) + length rooms ≤ length turns
      → (write_all (writer draws path host) new_write buf supply
          ≡ (HttpWrite.pass, build_http_request draws path host buf, []))
        × (reads reader rooms new_read
              (write_all (writer draws path host) new_write buf supply).1
              turns
            ≡ buf)
  reads_http_wire buf rooms supply turns p h w small some_buf n g room few give t =
      let request = build_http_request draws path host buf in
      let honest = writer-IsHonest draws path host buf in
      let out = write_all (writer draws path host) new_write buf supply in
      let left : out.2 ≡ [] =
        write_all_whole (Account draws path host buf) (cost draws path host)
          (writer draws path host) honest (length request) new_write [] [] buf supply
          (λ t o b l a less. cheap buf t o b l a) g (refl, refl, refl) n in
      let e = finished buf out some_buf left (
        write_all_keeps (Account draws path host buf) (cost draws path host)
          (writer draws path host) honest new_write [] [] buf supply (refl, refl, refl)) in
      let (k, found, behind) = request_ends draws path host buf p h w in
      let inside = find_header_end_bounds request k found in
      (
        e,
        ap (λ o. reads reader rooms new_read o.1 turns) e
            ∙ reads_whole Due reader reader-IsLawful rooms new_read request buf turns room
                (
                  (
                    k,
                    found,
                    behind,
                    omega (arith, inside.1, ap length behind, length-drop k request),
                  ),
                  nothing_found,
                )
                give few t,
      )

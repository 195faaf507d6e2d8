-- ===== src/Vless/Stream.antt =====
-- crates/clash-proxynet/src/vless.rs: the reads of VlessResponseStream deliver what follows the
-- header, whatever the pieces in which it arrives.
use rust_clash.Common.{
  ℕ, ◌≡◌, refl, sym, ◌∙◌, ap, Bool, true, false, Option, none, some, List, [], ◌∷◌, ◌++◌, leb, ◌==◌,
  length, take, drop, drop-append_left, at, inl, inr, Bool-cases, take-append-drop,
}
use mathlib.Core.Path.{subst}
use mathlib.Core.List.{append_assoc}
use Prim.Native.Nat.{min}
use rust_clash.Text.{is_empty}
use rust_clash.Vless.{
  Poll, Answer, VlessResponseStream, Header, session, skip_addons, read_version, parse_header,
  pass_on, read_body, extend, read_more, poll_read,
}
use rust_clash.Vless.Due.{
  arriving, strip, due, due_header, delivered, stream, due-parse_header, due-extend,
}

-- A read that ends with `r` has delivered the front of what was due.
abbrev IsFront : List ℕ → Poll × VlessResponseStream × List Answer → Type 0
IsFront before r = before ≡ delivered r.0 ++ due r.1 (arriving r.2)

IsRead : Header → Type 0
IsRead (Header.behind t) = t.header_read ≡ true
IsRead (Header.wrong t) = Unit {0}
IsRead (Header.more t) = Unit {0}

skip_addons-IsRead : (buf : List ℕ) (left : ℕ) → IsRead (skip_addons buf left)
unfolding skip_addons IsRead
skip_addons-IsRead buf left = elim (Bool-cases (leb left (length buf))) [
  | inl t ↦ rw t refl
  | inr f ↦ rw f tt
]

read_version-IsRead : (buf : List ℕ) → IsRead (read_version buf)
unfolding read_version IsRead
read_version-IsRead buf = elim (Bool-cases (leb 2 (length buf))) [
  | inl t ↦ elim (Bool-cases (at buf 0 == 0)) [
    | inl z ↦ rw (t, z) (skip_addons-IsRead (drop 2 buf) (at buf 1))
    | inr n ↦ rw (t, n) tt
  ]
  | inr f ↦ rw f tt
]

parse_header-IsRead :
    (read : Bool) (buf : List ℕ) (left : Option ℕ) → IsRead (parse_header (stream read buf left))
unfolding parse_header IsRead
parse_header-IsRead true buf left = refl
parse_header-IsRead false buf none = read_version-IsRead buf
parse_header-IsRead false buf (some left) = skip_addons-IsRead buf left

pass_on-IsFront :
    (left : Option ℕ) (answers : List Answer)
    → (let s : VlessResponseStream = stream true [] left in
        IsFront (arriving answers) (pass_on s answers))
unfolding pass_on due arriving delivered
pass_on-IsFront left [] = refl
pass_on-IsFront left (Answer.bytes bs ∷ answers) = refl
pass_on-IsFront left (Answer.error ∷ answers) = refl
pass_on-IsFront left (Answer.wait ∷ answers) = refl

body_by_fields :
    (remaining : ℕ) (buf : List ℕ) (left : Option ℕ) (answers : List Answer)
    → (let s : VlessResponseStream = stream true buf left in
        IsFront (due s (arriving answers)) (read_body remaining s answers))
unfolding read_body due delivered is_empty
body_by_fields remaining [] left answers = pass_on-IsFront left answers
body_by_fields remaining (b ∷ buf) left answers =
    let n = min (length (b ∷ buf)) remaining in
    ap (λ p. p ++ arriving answers) (sym (take-append-drop n (b ∷ buf)))
    ∙ append_assoc (take n (b ∷ buf)) (drop n (b ∷ buf)) (arriving answers)

read_body-IsFront :
    (remaining : ℕ) (s : VlessResponseStream) (answers : List Answer)
    → s.header_read ≡ true
    → IsFront (due s (arriving answers)) (read_body remaining s answers)
read_body-IsFront remaining s answers h =
    subst
      (λ read.
        (let t : VlessResponseStream = stream read s.pending s.addons_left in
          IsFront (due t (arriving answers)) (read_body remaining t answers)))
      (sym h) (body_by_fields remaining s.pending s.addons_left answers)

-- The loop from what the header says, without and with an answer of the inner stream.
at_end-IsFront :
    (remaining : ℕ) (h : Header)
    → IsRead h
    → IsFront (due_header h []) (elim h [
      | Header.behind t ↦ read_body remaining t []
      | Header.wrong t ↦ (Poll.invalid_data, t, [])
      | Header.more t ↦ (Poll.pending, t, [])
    ])
unfolding due_header delivered arriving IsRead
at_end-IsFront remaining (Header.behind t) h = read_body-IsFront remaining t [] h
at_end-IsFront remaining (Header.wrong t) h = refl
at_end-IsFront remaining (Header.more t) h = refl

read_more-IsFront :
    (again : VlessResponseStream → Poll × VlessResponseStream × List Answer)
    (s : VlessResponseStream) (answer : Answer) (answers : List Answer)
    → ((u : VlessResponseStream) → IsFront (due u (arriving answers)) (again u))
    → IsFront (due s (arriving (answer ∷ answers))) (read_more again s answer answers)
unfolding read_more arriving delivered
read_more-IsFront again s (Answer.bytes []) answers h = refl
read_more-IsFront again s (Answer.bytes (b ∷ bs)) answers h =
    sym (due-extend s (b ∷ bs) (arriving answers)) ∙ h (extend s (b ∷ bs))
read_more-IsFront again s Answer.error answers h = refl
read_more-IsFront again s Answer.wait answers h = refl

on_answer-IsFront :
    (remaining : ℕ) (h : Header) (answer : Answer) (answers : List Answer)
    (again : VlessResponseStream → Poll × VlessResponseStream × List Answer)
    → IsRead h
    → ((u : VlessResponseStream) → IsFront (due u (arriving answers)) (again u))
    → IsFront (due_header h (arriving (answer ∷ answers))) (elim h [
      | Header.behind t ↦ read_body remaining t (answer ∷ answers)
      | Header.wrong t ↦ (Poll.invalid_data, t, answer ∷ answers)
      | Header.more t ↦ read_more again t answer answers
    ])
unfolding due_header delivered IsRead
on_answer-IsFront remaining (Header.behind t) answer answers again h k =
    read_body-IsFront remaining t (answer ∷ answers) h
on_answer-IsFront remaining (Header.wrong t) answer answers again h k = refl
on_answer-IsFront remaining (Header.more t) answer answers again h k =
    read_more-IsFront again t answer answers k

pub poll_read-IsFront :
    (remaining : ℕ) (s : VlessResponseStream) (answers : List Answer)
    → IsFront (due s (arriving answers)) (poll_read remaining s answers)
unfolding poll_read arriving
poll_read-IsFront remaining s [] =
    sym (due-parse_header s (arriving []))
    ∙ at_end-IsFront remaining (parse_header s)
        (parse_header-IsRead s.header_read s.pending s.addons_left)
poll_read-IsFront remaining s (answer ∷ answers) =
    sym (due-parse_header s (arriving (answer ∷ answers)))
    ∙ on_answer-IsFront remaining (parse_header s) answer answers
        (λ u. poll_read remaining u answers)
        (parse_header-IsRead s.header_read s.pending s.addons_left)
        (λ u. poll_read-IsFront remaining u answers)

-- One read after another, into buffers with room for `rooms`: what they delivered, and what is
-- left.
unfoldable pub reads :
    List ℕ → VlessResponseStream → List Answer → List ℕ × VlessResponseStream × List Answer
unfolding delivered poll_read
reads [] s answers = ([], s, answers)
reads (room ∷ rooms) s answers =
    let first = poll_read room s answers in
    let rest = reads rooms first.1 first.2 in (delivered first.0 ++ rest.0, rest.1, rest.2)

reads-due :
    (rooms : List ℕ) (s : VlessResponseStream) (answers : List Answer)
    → (let out = reads rooms s answers in
        due s (arriving answers) ≡ out.0 ++ due out.1 (arriving out.2))
unfolding reads
reads-due [] s answers = refl
reads-due (room ∷ rooms) s answers =
    let first = poll_read room s answers in
    let rest = reads rooms first.1 first.2 in
    poll_read-IsFront room s answers
    ∙ ap (◌++◌ (delivered first.0)) (reads-due rooms first.1 first.2)
    ∙ sym (append_assoc (delivered first.0) rest.0 (due rest.1 (arriving rest.2)))

due-session : (rest : List ℕ) → due session rest ≡ strip rest
unfolding due
due-session rest = refl

strip_header :
    (version left : ℕ) (addons payload : List ℕ)
    → left ≡ length addons
    → strip (version ∷ left ∷ addons ++ payload) ≡ payload
unfolding strip
strip_header version left addons payload h = drop-append_left addons payload left h

-- In whatever pieces the inner stream gives a header, of a version and counted addons, and the
-- payload behind it, with waits and errors between them, and into whatever buffers one reads: what
-- the reads of a new session delivered, one after the other, is the front of the payload.
pub reads_deliver_payload :
    (rooms : List ℕ) (answers : List Answer) (version left : ℕ) (addons payload : List ℕ)
    → arriving answers ≡ version ∷ left ∷ addons ++ payload
    → left ≡ length addons
    → (undelivered : List ℕ) × (payload ≡ (reads rooms session answers).0 ++ undelivered)
reads_deliver_payload rooms answers version left addons payload h n =
    let out = reads rooms session answers in
    (
      due out.1 (arriving out.2),
      sym (strip_header version left addons payload n)
          ∙ ap strip (sym h)
          ∙ sym (due-session (arriving answers))
          ∙ reads-due rooms session answers,
    )

-- ===== src/Vless.antt =====
-- crates/clash-proxynet/src/vless.rs: VlessResponseStream, which strips the header of the server's
-- answer. The inner stream is the list of the answers that its `poll_read` gives, one after the
-- other; an answer of no bytes is the end of the stream. `cx` and the messages of errors are left
-- out.
mod Due
mod Stream
mod Tests
use rust_clash.Common.{
  ℕ, ◌+◌, Bool, true, false, Option, none, some, List, [], ◌∷◌, ◌++◌, leb, ◌==◌, if◌then◌else◌,
  length, take, drop, at,
}
use Prim.Native.Nat.{min}
use rust_clash.Text.{is_empty}

-- `Poll<io::Result<()>>` with the bytes that were read.
pub data Poll : Type 0 where
  ready : List ℕ → Poll
  invalid_data : Poll
  unexpected_eof : Poll
  inner_error : Poll
  pending : Poll

-- An answer of the inner stream.
pub data Answer : Type 0 where
  bytes : List ℕ → Answer
  error : Answer
  wait : Answer

pub record VlessResponseStream : Type 0 where
  pub header_read : Bool
  pub pending : List ℕ
  pub addons_left : Option ℕ

-- The stream that `establish_vless` makes.
abbrev pub session : VlessResponseStream
session = record { header_read = false; pending = []; addons_left = none }

-- What the loop knows before it reads: the header is behind it, its version is wrong, or more
-- bytes are needed.
pub data Header : Type 0 where
  behind : VlessResponseStream → Header
  wrong : VlessResponseStream → Header
  more : VlessResponseStream → Header

-- `addons_left` is `left`.
unfoldable pub skip_addons : List ℕ → ℕ → Header
skip_addons buf left =
    if leb left (length buf)
    then Header.behind
        (record { header_read = true; pending = drop left buf; addons_left = some left })
    else Header.more (record { header_read = false; pending = buf; addons_left = some left })

-- The version and the length of the addons, when they are there.
unfoldable pub read_version : List ℕ → Header
unfolding skip_addons
read_version buf =
    if leb 2 (length buf)
    then if at buf 0 == 0
      then skip_addons (drop 2 buf) (at buf 1)
      else Header.wrong (record { header_read = false; pending = buf; addons_left = none })
    else Header.more (record { header_read = false; pending = buf; addons_left = none })

unfoldable pub parse_header : VlessResponseStream → Header
unfolding skip_addons read_version
parse_header s = if s.header_read then Header.behind s else elim s.addons_left [
  | some left ↦ skip_addons s.pending left
  | none ↦ read_version s.pending
]

-- An answer of the inner stream passed on.
unfoldable pub pass_on :
    VlessResponseStream → List Answer → Poll × VlessResponseStream × List Answer
pass_on s [] = (Poll.pending, s, [])
pass_on s (Answer.bytes bs ∷ answers) = (Poll.ready bs, s, answers)
pass_on s (Answer.error ∷ answers) = (Poll.inner_error, s, answers)
pass_on s (Answer.wait ∷ answers) = (Poll.pending, s, answers)

-- A read behind the header, into a buffer with room for `remaining` bytes.
unfoldable pub read_body :
    ℕ → VlessResponseStream → List Answer → Poll × VlessResponseStream × List Answer
unfolding pass_on is_empty
read_body remaining s answers =
    let n = min (length s.pending) remaining in
    if is_empty s.pending then pass_on s answers else (
      Poll.ready (take n s.pending),
      record {
        header_read = s.header_read;
        pending = drop n s.pending;
        addons_left = s.addons_left;
      },
      answers,
    )

abbrev pub extend : VlessResponseStream → List ℕ → VlessResponseStream
extend s bs = record {
  header_read = s.header_read;
  pending = s.pending ++ bs;
  addons_left = s.addons_left;
}

-- A read of the inner stream while the header is not complete; no answer is left at the end of
-- the list, which waits. `again` is the loop's next round.
unfoldable pub read_more :
    (VlessResponseStream → Poll × VlessResponseStream × List Answer)
    → VlessResponseStream
    → Answer
    → List Answer
    → Poll × VlessResponseStream × List Answer
read_more again s (Answer.bytes []) answers = (Poll.unexpected_eof, s, answers)
read_more again s (Answer.bytes (b ∷ bs)) answers = again (extend s (b ∷ bs))
read_more again s Answer.error answers = (Poll.inner_error, s, answers)
read_more again s Answer.wait answers = (Poll.pending, s, answers)

unfoldable pub poll_read :
    ℕ → VlessResponseStream → List Answer → Poll × VlessResponseStream × List Answer
unfolding parse_header read_body read_more
poll_read remaining s [] = elim (parse_header s) [
  | Header.behind t ↦ read_body remaining t []
  | Header.wrong t ↦ (Poll.invalid_data, t, [])
  | Header.more t ↦ (Poll.pending, t, [])
]
poll_read remaining s (answer ∷ answers) = elim (parse_header s) [
  | Header.behind t ↦ read_body remaining t (answer ∷ answers)
  | Header.wrong t ↦ (Poll.invalid_data, t, answer ∷ answers)
  | Header.more t ↦ read_more (λ u. poll_read remaining u answers) t answer answers
]

abbrev pub take_pending : VlessResponseStream → List ℕ × VlessResponseStream
take_pending s =
    (s.pending, record { header_read = s.header_read; pending = []; addons_left = s.addons_left })

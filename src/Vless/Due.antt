-- ===== src/Vless/Due.antt =====
-- crates/clash-proxynet/src/vless.rs: what a VlessResponseStream has still to deliver.
use rust_clash.Common.{
  ℕ, zero, suc, ◌≤◌, ◌≡◌, refl, sym, ap, Bool, true, false, Option, none, some, List, [], ◌∷◌, ◌++◌,
  leb, leb→le, ◌==◌, if◌then◌else◌, length, drop, arith, inl, inr, Bool-cases,
}
use mathlib.Core.List.{append_assoc}
use rust_clash.Vless.{
  Poll, Answer, VlessResponseStream, Header, skip_addons, read_version, parse_header, extend,
}

-- The bytes that the inner stream still gives.
unfoldable pub arriving : List Answer → List ℕ
arriving [] = []
arriving (Answer.bytes bs ∷ answers) = bs ++ arriving answers
arriving (Answer.error ∷ answers) = arriving answers
arriving (Answer.wait ∷ answers) = arriving answers

-- What follows a header.
unfoldable pub strip : List ℕ → List ℕ
strip [] = []
strip (version ∷ []) = []
strip (version ∷ left ∷ buf) = drop left buf

-- What the reads have still to deliver.
unfoldable pub due : VlessResponseStream → List ℕ → List ℕ
unfolding strip
due s rest = if s.header_read then s.pending ++ rest else elim s.addons_left [
  | some left ↦ drop left (s.pending ++ rest)
  | none ↦ strip (s.pending ++ rest)
]

unfoldable pub due_header : Header → List ℕ → List ℕ
unfolding due
due_header (Header.behind t) rest = due t rest
due_header (Header.wrong t) rest = due t rest
due_header (Header.more t) rest = due t rest

drop-append_le :
    (k : ℕ) (buf rest : List ℕ) → k ≤ length buf → drop k (buf ++ rest) ≡ drop k buf ++ rest
drop-append_le zero buf rest h = refl
drop-append_le (suc k) [] rest h = absurd (omega arith)
drop-append_le (suc k) (b ∷ buf) rest h = drop-append_le k buf rest (omega arith)

due-skip_addons :
    (buf rest : List ℕ) (left : ℕ)
    → due_header (skip_addons buf left) rest ≡ drop left (buf ++ rest)
unfolding due_header due skip_addons
due-skip_addons buf rest left = elim (Bool-cases (leb left (length buf))) [
  | inl t ↦ rw t (sym (drop-append_le left buf rest (leb→le left (length buf) t)))
  | inr f ↦ rw f refl
]

due-read_version : (buf rest : List ℕ) → due_header (read_version buf) rest ≡ strip (buf ++ rest)
unfolding read_version strip due_header due
due-read_version [] rest = refl
due-read_version (v ∷ []) rest = refl
due-read_version (v ∷ n ∷ buf) rest =
    let long : leb 2 (suc (suc (length buf))) ≡ true = ground arith in
    elim (Bool-cases (v == 0)) [
      | inl t ↦ rw (long, t) (due-skip_addons buf rest n)
      | inr f ↦ rw (long, f) refl
    ]

abbrev pub stream : Bool → List ℕ → Option ℕ → VlessResponseStream
stream read buf left = record { header_read = read; pending = buf; addons_left = left }

by_fields :
    (read : Bool) (buf : List ℕ) (left : Option ℕ) (rest : List ℕ)
    → (let s : VlessResponseStream = stream read buf left in
        due_header (parse_header s) rest ≡ due s rest)
unfolding parse_header due due_header
by_fields true buf left rest = refl
by_fields false buf none rest = due-read_version buf rest
by_fields false buf (some left) rest = due-skip_addons buf rest left

pub due-parse_header :
    (s : VlessResponseStream) (rest : List ℕ) → due_header (parse_header s) rest ≡ due s rest
due-parse_header s rest = by_fields s.header_read s.pending s.addons_left rest

-- Bytes that arrived are bytes that are still to come, moved.
extend_by_fields :
    (read : Bool) (buf : List ℕ) (left : Option ℕ) (bs rest : List ℕ)
    → due (extend (stream read buf left) bs) rest ≡ due (stream read buf left) (bs ++ rest)
unfolding due
extend_by_fields true buf left bs rest = append_assoc buf bs rest
extend_by_fields false buf none bs rest = ap strip (append_assoc buf bs rest)
extend_by_fields false buf (some left) bs rest = ap (drop left) (append_assoc buf bs rest)

pub due-extend :
    (s : VlessResponseStream) (bs rest : List ℕ) → due (extend s bs) rest ≡ due s (bs ++ rest)
due-extend s bs rest = extend_by_fields s.header_read s.pending s.addons_left bs rest

unfoldable pub delivered : Poll → List ℕ
delivered (Poll.ready bs) = bs
delivered Poll.invalid_data = []
delivered Poll.unexpected_eof = []
delivered Poll.inner_error = []
delivered Poll.pending = []

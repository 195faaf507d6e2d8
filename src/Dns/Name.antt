-- ===== src/Dns/Name.antt =====
-- `read_dns_name` of crates/clash-core/src/dns.rs reads back what `encode_dns_name` writes.
use Prim.Native.Nat.{bit_and}
use rust_clash.Common.{
  tabulate, tabulate_lem, ℕ, zero, suc, ◌+◌, ◌%◌, ◌^◌, ◌<◌, ◌≡◌, ◌∙◌, refl, ap, Bool, true, false,
  List, [], ◌∷◌, ◌++◌, Option, some, arith, ◌==◌, ==_iff, if◌then◌else◌, All, length, length-append,
  drop, take-append_left, length-of_drop, at-of_drop, at-of_drop_zero, drop-of_drop, drop-of_part,
}
use mathlib.Core.List.{append_assoc, append-nil}
use rust_clash.Text.{Str}
use rust_clash.Utf8.{AllAscii, as_bytes_ascii, from_utf8_lossy_ascii}
use rust_clash.Utils.{domain_to_ascii}
use rust_clash.Dns.{
  encode_labels, labels, encode_dns_name, read_labels, read_dns_name, join, drop_empty, split,
}

-- A label that the wire format allows: 1 to 63 ASCII characters.
abbrev pub IsLabel : Str → Type 0
IsLabel l = (0 < length l) × (length l < 64) × AllAscii l

-- The two top bits of a length byte, over all bytes below 64.
top_bits_table : tabulate (λ x. bit_and x 0xc0 == 0) 64 ≡ true
unfolding tabulate
top_bits_table = refl

top_bits : (x : ℕ) → x < 64 → bit_and x 0xc0 ≡ 0
top_bits x h = (==_iff _ _).0 (tabulate_lem _ 64 top_bits_table x h)

-- One round at a closing 0, at a label, and at a pointer.
read_labels_end :
    (n : ℕ) (msg : List ℕ) (off : ℕ) (jumped : Bool) (end : ℕ) (found : List Str) (rest : List ℕ)
    → drop off msg ≡ 0 ∷ rest
    → read_labels (suc n) msg off jumped end found
      ≡ some (join b'.' found, if jumped then end else off + 1)
unfolding read_labels
read_labels_end n msg off jumped end found rest h =
    rw (at-of_drop_zero off msg (0 ∷ rest) h) (ground (arith, length-of_drop off msg 0 rest h))

read_labels_label :
    (n : ℕ) (msg : List ℕ) (off : ℕ) (jumped : Bool) (end : ℕ) (found : List Str) (l : Str)
    (rest : List ℕ)
    → IsLabel l
    → drop off msg ≡ length l ∷ (l ++ rest)
    → read_labels (suc n) msg off jumped end found
      ≡ read_labels n msg (off + 1 + length l) jumped end (found ++ (l ∷ []))
unfolding read_labels
read_labels_label n msg off jumped end found l rest v h =
    let t = l ++ rest in
    rw
      (
        at-of_drop_zero off msg (length l ∷ t) h,
        drop-of_drop off 1 msg (length l ∷ t) h,
        take-append_left l rest (length l) refl,
        from_utf8_lossy_ascii l v.2,
      )
      (ground (
        arith,
        length-of_drop off msg (length l) t h,
        length-append l rest,
        top_bits (length l) v.1,
      ))

pub read_labels_pointer :
    (n : ℕ) (msg : List ℕ) (off : ℕ) (end : ℕ) (found : List Str) (rest : List ℕ)
    → drop off msg ≡ 0xc0 ∷ 0x0c ∷ rest
    → read_labels (suc n) msg off false end found ≡ read_labels n msg 12 true (off + 2) found
unfolding read_labels
read_labels_pointer n msg off end found rest h =
    rw (at-of_drop_zero off msg (0xc0 ∷ 0x0c ∷ rest) h, at-of_drop off 1 msg (0xc0 ∷ 0x0c ∷ rest) h)
      (ground (arith, length-of_drop off msg 0xc0 (0x0c ∷ rest) h))

pub encode_labels_cons :
    (l : Str) (ls : List Str)
    → IsLabel l
    → encode_labels (l ∷ ls) ≡ length l ∷ (l ++ encode_labels ls)
unfolding encode_labels
encode_labels_cons l ls v =
    let low : length l % 2 ^ 8 ≡ length l = omega arith in rw (as_bytes_ascii l v.2, low) refl

-- The whole name: the labels join those found before, and the offset moves behind the closing 0.
pub read_labels-encode_labels :
    (ls : List Str) (n : ℕ) (msg : List ℕ) (off : ℕ) (found : List Str) (jumped : Bool) (end : ℕ)
    (rest : List ℕ)
    → All IsLabel ls
    → length ls < n
    → drop off msg ≡ encode_labels ls ++ rest
    → read_labels n msg off jumped end found
      ≡ some (join b'.' (found ++ ls), if jumped then end else off + length (encode_labels ls))
read_labels-encode_labels ls zero msg off found jumped end rest v lt h = absurd (omega arith)
read_labels-encode_labels [] (suc n) msg off found jumped end rest v lt h =
    rw append-nil (unfold encode_labels in read_labels_end n msg off jumped end found rest h)
read_labels-encode_labels (l ∷ ls) (suc n) msg off found jumped end rest v lt h =
    let e = encode_labels_cons l ls v.0 in
    let tail = encode_labels ls in
    let here : drop off msg ≡ length l ∷ (l ++ (tail ++ rest)) =
      h ∙ rw (e, append_assoc l tail rest) in
    let after : drop (off + 1 + length l) msg ≡ tail ++ rest =
      drop-of_part (off + 1) (length l) msg l (tail ++ rest)
        (drop-of_drop off 1 msg (length l ∷ (l ++ (tail ++ rest))) here) refl in
    let ih =
      read_labels-encode_labels ls n msg (off + 1 + length l) (found ++ (l ∷ [])) jumped end rest
        v.1 (omega arith) after in
    let sum : off + 1 + length l + length tail ≡ off + length (encode_labels (l ∷ ls)) =
      omega (arith, ap length e, length-append l tail) in
    read_labels_label n msg off jumped end found l (tail ++ rest) v.0 here
    ∙ (rw (← sum) (rw append_assoc at ih))

-- Every label of a name is not empty.
abbrev IsShort : Str → Type 0
IsShort l = (length l < 64) × AllAscii l

drop_empty-IsLabel : (ls : List Str) → All IsShort (drop_empty ls) → All IsLabel (drop_empty ls)
unfolding drop_empty
drop_empty-IsLabel [] h = tt
drop_empty-IsLabel ([] ∷ ls) h = drop_empty-IsLabel ls h
drop_empty-IsLabel ((c ∷ l) ∷ ls) h = ((omega arith, h.0.0, h.0.1), drop_empty-IsLabel ls h.1)

module _ (idna : Str → Option Str) where
  -- A name that fits the wire format: at most 63 labels, each of at most 63 ASCII characters.
  pub record IsName (name : Str) : Type 0 where
    pub count : length (labels idna name) < 64
    pub each : All IsShort (labels idna name)

  pub IsName-IsLabel : (name : Str) → IsName name → All IsLabel (labels idna name)
  unfolding labels
  IsName-IsLabel name v = drop_empty-IsLabel (split b'.' (domain_to_ascii idna name)) v.each

  -- The name as it is read back: its labels, joined by dots.
  abbrev pub dotted : Str → Str
  dotted name = join b'.' (labels idna name)

  -- Wherever an encoded name stands in a message, `read_dns_name` reads its labels back, joined by
  -- dots, and moves the offset behind it.
  pub read_dns_name-encode_dns_name :
      (name : Str) (msg : List ℕ) (off : ℕ) (rest : List ℕ)
      → IsName name
      → drop off msg ≡ encode_dns_name idna name ++ rest
      → read_dns_name msg off ≡ some (dotted name, off + length (encode_dns_name idna name))
  unfolding read_dns_name encode_dns_name
  read_dns_name-encode_dns_name name msg off rest v h =
      read_labels-encode_labels (labels idna name) 64 msg off [] false off rest
        (IsName-IsLabel name v) v.count h

  -- A pointer to offset 12, where the name stands.
  pub read_dns_name_pointer :
      (name : Str) (msg : List ℕ) (off : ℕ) (rest tail : List ℕ)
      → IsName name
      → length (labels idna name) < 63
      → drop 12 msg ≡ encode_dns_name idna name ++ rest
      → drop off msg ≡ 0xc0 ∷ 0x0c ∷ tail
      → read_dns_name msg off ≡ some (dotted name, off + 2)
  unfolding read_dns_name encode_dns_name
  read_dns_name_pointer name msg off rest tail v few h p =
      read_labels_pointer 63 msg off off [] tail p
      ∙ read_labels-encode_labels (labels idna name) 63 msg 12 [] true (off + 2) rest
          (IsName-IsLabel name v) few h

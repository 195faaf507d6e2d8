-- ===== src/Utf8.antt =====
-- `str::as_bytes` and `String::from_utf8_lossy` of the Rust standard library.
use rust_clash.Common.{
  ℕ, zero, suc, ◌+◌, ◌-◌, ◌*◌, ◌/◌, ◌%◌, ◌^◌, ◌<◌, ◌≡◌, refl, ap, Bool, ◌&&◌, List, [], ◌∷◌, ◌++◌,
  ltb, lt→ltb, leb, ◌==◌, if◌then◌else◌, All,
}
use rust_clash.Text.{Str}

-- The bytes of one character.
unfoldable pub encode_char : ℕ → List ℕ
encode_char c =
    if ltb c 0x80
    then c ∷ []
    else if ltb c 0x800
    then (0xc0 + c / 2 ^ 6) ∷ (0x80 + c % 2 ^ 6) ∷ []
    else if ltb c 0x10000
    then (0xe0 + c / 2 ^ 12) ∷ (0x80 + c / 2 ^ 6 % 2 ^ 6) ∷ (0x80 + c % 2 ^ 6) ∷ []
    else (0xf0 + c / 2 ^ 18)
      ∷ (0x80 + c / 2 ^ 12 % 2 ^ 6)
      ∷ (0x80 + c / 2 ^ 6 % 2 ^ 6)
      ∷ (0x80 + c % 2 ^ 6)
      ∷ []

unfoldable pub as_bytes : Str → List ℕ
unfolding encode_char
as_bytes [] = []
as_bytes (c ∷ s) = encode_char c ++ as_bytes s

in_range : ℕ → ℕ → ℕ → Bool
in_range lo hi b = leb lo b && leb b hi

-- Where the second byte of a sequence may lie, by its first byte.
second_ok : ℕ → ℕ → Bool
unfolding in_range
second_ok b c =
    if b == 0xe0
    then in_range 0xa0 0xbf c
    else if b == 0xed
    then in_range 0x80 0x9f c
    else if b == 0xf0
    then in_range 0x90 0xbf c
    else if b == 0xf4
    then in_range 0x80 0x8f c
    else in_range 0x80 0xbf c

abbrev replacement : ℕ
replacement = 0xfffd

-- A third and a fourth byte.
decode_four : ℕ → ℕ → ℕ → List ℕ → ℕ × ℕ
unfolding in_range
decode_four b c d [] = (replacement, 2)
decode_four b c d (e ∷ s) =
    if in_range 0x80 0xbf e
    then ((b - 0xf0) * 2 ^ 18 + (c - 0x80) * 2 ^ 12 + (d - 0x80) * 2 ^ 6 + (e - 0x80), 3)
    else (replacement, 2)

decode_three : ℕ → ℕ → List ℕ → ℕ × ℕ
unfolding decode_four
decode_three b c [] = (replacement, 1)
decode_three b c (d ∷ s) =
    if in_range 0x80 0xbf d
    then if ltb b 0xf0
      then ((b - 0xe0) * 2 ^ 12 + (c - 0x80) * 2 ^ 6 + (d - 0x80), 2)
      else decode_four b c d s
    else (replacement, 1)

-- The character at the front of `b ∷ s`, and how many bytes of `s` belong to it. An ill-formed
-- sequence is cut where it first goes wrong, and stands for U+FFFD.
decode_rest : ℕ → List ℕ → ℕ × ℕ
unfolding decode_three second_ok
decode_rest b [] = (replacement, 0)
decode_rest b (c ∷ s) =
    if in_range 0xc2 0xdf b && in_range 0x80 0xbf c
    then ((b - 0xc0) * 2 ^ 6 + (c - 0x80), 1)
    else if in_range 0xe0 0xf4 b && second_ok b c
    then decode_three b c s
    else (replacement, 0)

-- `skip` counts the bytes that the last character has still to its account.
decode_from : ℕ → List ℕ → Str
unfolding decode_rest
decode_from skip [] = []
decode_from (suc skip) (b ∷ s) = decode_from skip s
decode_from zero (b ∷ s) =
    let wide = decode_rest b s in
    let more = wide.0 ∷ decode_from wide.1 s in if ltb b 0x80 then b ∷ decode_from 0 s else more

unfoldable pub from_utf8_lossy : List ℕ → Str
unfolding decode_from
from_utf8_lossy bytes = decode_from 0 bytes

abbrev pub AllAscii : Str → Type 0
AllAscii = All (λ c. c < 128)

pub as_bytes_ascii : (s : Str) → AllAscii s → as_bytes s ≡ s
unfolding as_bytes
as_bytes_ascii [] h = refl
as_bytes_ascii (c ∷ s) h = rw (lt→ltb c 128 h.0) (ap (◌∷◌ c) (as_bytes_ascii s h.1))

decode_from_ascii : (s : Str) → AllAscii s → decode_from 0 s ≡ s
unfolding decode_from
decode_from_ascii [] h = refl
decode_from_ascii (c ∷ s) h = rw (lt→ltb c 128 h.0) (ap (◌∷◌ c) (decode_from_ascii s h.1))

pub from_utf8_lossy_ascii : (s : Str) → AllAscii s → from_utf8_lossy s ≡ s
unfolding from_utf8_lossy
from_utf8_lossy_ascii s h = decode_from_ascii s h

lossy_run :
    from_utf8_lossy (b'a' ∷ 0xc3 ∷ 0xa9 ∷ 0xe2 ∷ 0x82 ∷ b'b' ∷ 0xff ∷ [])
    ≡ b'a' ∷ 0xe9 ∷ 0xfffd ∷ b'b' ∷ 0xfffd ∷ []
unfolding from_utf8_lossy
lossy_run = refl

-- ===== src/Text.antt =====
-- Rust's `str`, as the list of its characters: the methods of the standard library that the
-- program uses. A character is its code point.
use rust_clash.Common.{
  ℕ, ◌+◌, Bool, true, false, ◌&&◌, ◌||◌, List, [], ◌∷◌, map, ltb, leb, ◌==◌, if◌then◌else◌, nat_eq,
  list_eq,
}
use mathlib.Core.List.{reverse}
use Prim.Native.String.{String}
use Prim.Native.Char.{code}

abbrev pub Str : Type 0
Str = List ℕ

-- A string literal.
abbrev pub codes : String → Str
codes String.[] = []
codes (String.◌∷◌ c s) = code c ∷ codes s

-- `char::is_whitespace`: the property White_Space of Unicode.
unfoldable pub is_whitespace : ℕ → Bool
is_whitespace c =
    (leb 0x9 c && leb c 0xd)
    || c == 0x20
    || c == 0x85
    || c == 0xa0
    || c == 0x1680
    || (leb 0x2000 c && leb c 0x200a)
    || c == 0x2028
    || c == 0x2029
    || c == 0x202f
    || c == 0x205f
    || c == 0x3000

-- `trim_start_matches` and `trim_end_matches`, of a test on characters.
unfoldable pub trim_start_matches : (ℕ → Bool) → Str → Str
trim_start_matches p [] = []
trim_start_matches p (c ∷ s) = let rest = trim_start_matches p s in if p c then rest else c ∷ s

unfoldable pub trim_end_matches : (ℕ → Bool) → Str → Str
unfolding trim_start_matches
trim_end_matches p s = reverse (trim_start_matches p (reverse s))

unfoldable pub trim : Str → Str
unfolding trim_end_matches is_whitespace
trim s = trim_end_matches is_whitespace (trim_start_matches is_whitespace s)

unfoldable pub to_ascii_lowercase_char : ℕ → ℕ
to_ascii_lowercase_char c = if leb b'A' c && leb c b'Z' then c + 32 else c

unfoldable pub to_ascii_lowercase : Str → Str
unfolding to_ascii_lowercase_char
to_ascii_lowercase s = map to_ascii_lowercase_char s

unfoldable pub is_ascii : Str → Bool
is_ascii [] = true
is_ascii (c ∷ s) = ltb c 128 && is_ascii s

unfoldable pub is_empty {ℓ} : {A : Type ℓ} → List A → Bool
is_empty [] = true
is_empty (c ∷ s) = false

-- ===== src/TtlLru/Tests.antt =====
-- crates/clash-core/src/utils.rs: a cache that is set and read.
use rust_clash.Common.{ℕ, ◌≡◌, refl, none, some, length, list_eq, nat_eq}
use rust_clash.Text.{Str, codes}
use rust_clash.TtlLru.{TtlLru, new, get, set}
use rust_clash.TtlLru.Bounds.{IsValid, new-IsValid, set-IsValid}
use rust_clash.TtlLru.Order.{list_keys, list_keys-KeysLaw}

-- A cache of numbers, each the length of its key.
abbrev LengthOf : Str → ℕ → Type 0
LengthOf key value = value ≡ length key

abbrev empty : TtlLru ℕ
empty = new 4

set-IsValid_example : IsValid LengthOf (set list_keys 5 6 empty (codes "abc") 3 none)
set-IsValid_example =
    set-IsValid list_keys LengthOf 5 6 empty (codes "abc") 3 none list_keys-KeysLaw
      (new-IsValid LengthOf 4) refl

read_run : (get 600 (set list_keys 5 6 empty (codes "abc") 3 none) (codes "abc")).0 ≡ some 3
unfolding get set list_keys
read_run = refl

expired_run : (get 606 (set list_keys 5 6 empty (codes "abc") 3 none) (codes "abc")).0 ≡ none
unfolding get set list_keys
expired_run = refl

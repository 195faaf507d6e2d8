-- ===== src/Utils.antt =====
-- crates/clash-core/src/utils.rs: `domain_to_ascii`. The crate `idna` is the argument `idna`, which
-- answers `none` where the crate fails.
use rust_clash.Common.{◌≡◌, refl, ◌||◌, Option, none, ◌==◌, if◌then◌else◌}
use rust_clash.Text.{Str, trim, trim_end_matches, to_ascii_lowercase, is_ascii, is_empty, codes}
use mathlib.Core.Option.{get_or}

-- What is left of a host before `idna`.
unfoldable pub fold_host : Str → Str
unfolding trim trim_end_matches to_ascii_lowercase
fold_host host = to_ascii_lowercase (trim_end_matches (λ c. c == b'.') (trim host))

module _ (idna : Str → Option Str) where
  unfoldable pub domain_to_ascii : Str → Str
  unfolding fold_host is_ascii is_empty
  domain_to_ascii host =
      let folded = fold_host host in
      if is_empty folded || is_ascii folded then folded else get_or (idna folded) folded

domain_to_ascii_run :
    domain_to_ascii (λ s. none) (codes " WWW.Example.COM.. ") ≡ codes "www.example.com"
unfolding domain_to_ascii
domain_to_ascii_run = refl

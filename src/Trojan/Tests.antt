-- ===== src/Trojan/Tests.antt =====
-- crates/clash-proxynet/src/trojan.rs: a request for a name.
use rust_clash.Common.{
  ℕ, ◌<◌, ◌≡◌, ◌⊎◌, refl, Option, none, some, List, [], ◌∷◌, ◌++◌, arith, length, take, replicate,
}
use rust_clash.Text.{Str, codes}
use rust_clash.Utf8.{as_bytes}
use rust_clash.Net.{IpAddr}
use rust_clash.Address.{Stored}
use rust_clash.Address.Written.{read_destination, target_of}
use rust_clash.Trojan.{hex_lower, build_request}
use rust_clash.Trojan.Request.{read_destination-build_request}

abbrev sha : List ℕ → List ℕ
sha bytes = replicate 28 171

hex_run : hex_lower (0 ∷ 171 ∷ []) ≡ codes "00ab"
hex_run = refl

read_destination-build_request_example :
    (let parse_ip : Str → Option IpAddr = λ s. none in
      ((parse_ip (codes "a.org") ≡ none)
        × (255 < length (as_bytes (codes "a.org")))
        × (build_request sha parse_ip (replicate 320 0) (codes "pw") (codes "a.org") 443
            ≡ Stored.string_too_long))
      ⊎ ((destination dest : List ℕ) × (n : ℕ) × (build_request sha parse_ip
              (replicate 320 0)
              (codes "pw")
              (codes "a.org")
              443
            ≡ Stored.stored n dest)
          × (take n dest
              ≡ hex_lower (sha (as_bytes (codes "pw")))
                ++ (13 ∷ 10 ∷ 1 ∷ (destination ++ (13 ∷ 10 ∷ []))))
          × (read_destination destination
              ≡ some (target_of (parse_ip (codes "a.org")) (codes "a.org"), 443))))
read_destination-build_request_example =
    read_destination-build_request sha (λ s. none) (codes "pw") (codes "a.org") 443 refl
      (λ six e. cc e) (omega arith)

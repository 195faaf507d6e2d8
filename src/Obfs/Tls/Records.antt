-- ===== src/Obfs/Tls/Records.antt =====
-- crates/clash-proxynet/src/obfs.rs: the records as they stand on the wire.
use rust_clash.Common.{ℕ, ◌^◌, ◌<◌, ◌≡◌, sym, ◌∙◌, ap, List, [], ◌∷◌, ◌++◌, length, concat}
use mathlib.Core.List.{append_assoc, append-nil}
use rust_clash.Obfs.Tls.{header}

abbrev pub records : List (List ℕ) → List ℕ
records [] = []
records (p ∷ ps) = header (length p) ++ (p ++ records ps)

-- A record carries a byte or more, and its length fits the header.
abbrev pub IsRecord : List ℕ → Type 0
IsRecord p = (0 < length p) × (length p < 2 ^ 16)

pub records-append :
    (ps : List (List ℕ)) (p : List ℕ)
    → records (ps ++ (p ∷ [])) ≡ records ps ++ (header (length p) ++ p)
records-append [] p = ap (λ r. header (length p) ++ r) (append-nil p)
records-append (q ∷ ps) p =
    ap (λ r. header (length q) ++ (q ++ r)) (records-append ps p)
    ∙ ap (λ r. header (length q) ++ r) (sym (append_assoc q (records ps) (header (length p) ++ p)))

pub concat-append : (ps : List (List ℕ)) (p : List ℕ) → concat (ps ++ (p ∷ [])) ≡ concat ps ++ p
concat-append [] p = append-nil p
concat-append (q ∷ ps) p =
    ap (λ r. q ++ r) (concat-append ps p) ∙ sym (append_assoc q (concat ps) p)

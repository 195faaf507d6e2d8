-- ===== src/Vless/Tests.antt =====
-- crates/clash-proxynet/src/vless.rs: an answer in three pieces.
use rust_clash.Common.{ℕ, ◌≡◌, refl, List, [], ◌∷◌, ◌++◌}
use rust_clash.Vless.{Answer, session}
use rust_clash.Vless.Due.{arriving}
use rust_clash.Vless.Stream.{reads, reads_deliver_payload}

-- A header with two bytes of addons, cut in the middle of them, and a payload.
abbrev answers : List Answer
answers =
    Answer.bytes (0 ∷ 2 ∷ 9 ∷ [])
    ∷ Answer.wait
    ∷ Answer.bytes (9 ∷ 65 ∷ 66 ∷ [])
    ∷ Answer.bytes (67 ∷ [])
    ∷ []

reads_run : (reads (5 ∷ 1 ∷ 4 ∷ 8 ∷ []) session answers).0 ≡ 65 ∷ 66 ∷ 67 ∷ []
unfolding reads
reads_run = refl

reads_deliver_payload_example :
    (undelivered : List ℕ) × (65 ∷ 66 ∷ 67 ∷ []
      ≡ (reads (5 ∷ 1 ∷ []) session answers).0 ++ undelivered)
unfolding arriving
reads_deliver_payload_example =
    reads_deliver_payload (5 ∷ 1 ∷ []) answers 0 2 (9 ∷ 9 ∷ []) (65 ∷ 66 ∷ 67 ∷ []) refl refl

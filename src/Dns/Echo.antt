-- ===== src/Dns/Echo.antt =====
-- `build_a_response` of crates/clash-core/src/dns.rs: an answer made from the bytes of the query.
use rust_clash.Common.{
  ℕ, zero, suc, ◌+◌, ◌-◌, ◌<◌, ◌≡◌, ◌∙◌, refl, ap, false, List, [], ◌∷◌, ◌++◌, some, arith, ltb,
  length, length-append, drop, take, be16, be32, All, take-append_left, length-of_drop,
  at-of_drop_zero, drop-of_part,
}
use mathlib.Core.List.{append_assoc}
use rust_clash.Net.{Ipv4Addr, octets}
use rust_clash.Text.{Str}
use rust_clash.Dns.{encode_labels, question_end, build_a_response}
use rust_clash.Dns.Name.{IsLabel, encode_labels_cons}

question_end_zero :
    (n : ℕ) (query : List ℕ) (i : ℕ) (rest : List ℕ)
    → drop i query ≡ 0 ∷ rest
    → question_end (suc n) query i ≡ i
unfolding question_end
question_end_zero n query i rest h =
    rw (at-of_drop_zero i query (0 ∷ rest) h) (ground (arith, length-of_drop i query 0 rest h))

question_end_label :
    (n : ℕ) (query : List ℕ) (i k : ℕ) (rest : List ℕ)
    → 0 < k
    → drop i query ≡ k ∷ rest
    → question_end (suc n) query i ≡ question_end n query (i + (1 + k))
unfolding question_end
question_end_label n query i k rest pos h =
    rw (at-of_drop_zero i query (k ∷ rest) h) (ground (arith, length-of_drop i query k rest h))

-- The walk over the labels stops at the closing 0.
question_end-encode_labels :
    (ls : List Str) (n : ℕ) (query : List ℕ) (i : ℕ) (rest : List ℕ)
    → All IsLabel ls
    → length ls < n
    → drop i query ≡ encode_labels ls ++ rest
    → question_end n query i + 1 ≡ i + length (encode_labels ls)
question_end-encode_labels ls zero query i rest v lt h = absurd (omega arith)
question_end-encode_labels [] (suc n) query i rest v lt h =
    unfold encode_labels in rw (question_end_zero n query i rest h) refl
question_end-encode_labels (l ∷ ls) (suc n) query i rest v lt h =
    let e = encode_labels_cons l ls v.0 in
    let tail = encode_labels ls in
    let here : drop i query ≡ length l ∷ (l ++ (tail ++ rest)) =
      h ∙ rw (e, append_assoc l tail rest) in
    let after : drop (i + (1 + length l)) query ≡ tail ++ rest =
      drop-of_part i (1 + length l) query (length l ∷ l) (tail ++ rest) here (omega arith) in
    rw (question_end_label n query i (length l) (l ++ (tail ++ rest)) v.0.0 here) (
      omega (
        arith,
        question_end-encode_labels ls n query (i + (1 + length l)) rest v.1 (omega arith) after,
        ap length e,
        length-append l tail,
      ))

count-le : (ls : List Str) → All IsLabel ls → length ls < length (encode_labels ls)
count-le [] v = unfold encode_labels in omega arith
count-le (l ∷ ls) v = omega (
  arith,
  ap length (encode_labels_cons l ls v.0),
  length-append l (encode_labels ls),
  count-le ls v.1,
)

-- `build_a_response` on a message whose question is `name` with two words behind it: the header
-- with the answer's flags and one answer, the question, and the record of the address. What
-- follows the question in the query is not copied, and the counts of the other sections stay as
-- they are in the query.
pub build_a_response_lem :
    (a b c d e f g h i j k l : ℕ) (ls : List Str) (t u v w : ℕ) (rest : List ℕ) (ip : Ipv4Addr)
    → All IsLabel ls
    → build_a_response
        (a
          ∷ b
          ∷ c
          ∷ d
          ∷ e
          ∷ f
          ∷ g
          ∷ h
          ∷ i
          ∷ j
          ∷ k
          ∷ l
          ∷ (encode_labels ls ++ (t ∷ u ∷ v ∷ w ∷ rest)))
        ip
      ≡ some (
          a
          ∷ b
          ∷ 0x81
          ∷ 0x80
          ∷ e
          ∷ f
          ∷ 0
          ∷ 1
          ∷ i
          ∷ j
          ∷ k
          ∷ l
          ∷ (encode_labels ls
              ++ (t
                  ∷ u
                  ∷ v
                  ∷ w
                  ∷ (be16 0xc00c ++ (be16 1 ++ (be16 1 ++ (be32 60 ++ (be16 4 ++ octets ip))))))))
unfolding build_a_response
build_a_response_lem a b c d e f g h i j k l ls t u v w rest ip valid =
    let name = encode_labels ls in
    let words = t ∷ u ∷ v ∷ w ∷ [] in
    let query = a ∷ b ∷ c ∷ d ∷ e ∷ f ∷ g ∷ h ∷ i ∷ j ∷ k ∷ l ∷ (name ++ (words ++ rest)) in
    let m = length (name ++ words) in
    let size : length (name ++ words) ≡ length name + 4 = length-append name words in
    let whole : length (name ++ (words ++ rest)) ≡ length name + (4 + length rest) =
      omega (arith, length-append name (words ++ rest)) in
    let stop : question_end (length query) query 12 + 5 ≡ 12 + m = omega (
      arith,
      question_end-encode_labels ls (length query) query 12 (words ++ rest) valid
          (omega (arith, count-le ls valid)) refl,
    ) in
    let count : 12 + m - 12 ≡ m = omega arith in
    let question : take m (name ++ (words ++ rest)) ≡ name ++ words =
      rw (← append_assoc name words rest) (take-append_left (name ++ words) rest m refl) in
    let fits : ltb (length query) (12 + m) ≡ false = ground arith in
    let long : ltb (length query) 12 ≡ false = ground arith in
    rw (long, stop, fits, count, question) (rw (append_assoc name words) refl)

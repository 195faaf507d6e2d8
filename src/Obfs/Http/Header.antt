-- ===== src/Obfs/Http/Header.antt =====
-- crates/clash-proxynet/src/obfs.rs: where find_header_end finds the end of a header.
use rust_clash.Common.{
  ℕ, zero, suc, ◌<◌, ◌≤◌, ◌≡◌, refl, ap, true, false, none, some, List, [], ◌∷◌, ◌++◌, arith,
  length, take, drop, length-take, contains, nat_eq, list_beq, list_beq_iff, ◌==◌, ltb, Bool-cases,
  Option-cases, inl, inr,
}
use mathlib.Core.Option.{some-injective}
use rust_clash.Obfs.Http.{find_header_end}

abbrev end_mark : List ℕ
end_mark = 13 ∷ 10 ∷ 13 ∷ 10 ∷ []

starts_long : (buf : List ℕ) → list_beq (take 4 buf) end_mark ≡ true → 4 ≤ length buf
starts_long buf t =
    omega (arith, length-take 4 buf, ap length ((list_beq_iff (take 4 buf) end_mark).0 t))

-- What is found lies inside.
pub find_header_end_bounds :
    (buf : List ℕ) (n : ℕ) → find_header_end buf ≡ some n → (4 ≤ length buf) × (n ≤ length buf)
unfolding find_header_end
find_header_end_bounds [] n h = cc h
find_header_end_bounds (b ∷ buf) n h = elim (Bool-cases (list_beq (take 4 (b ∷ buf)) end_mark)) [
  | inl t ↦
      let long = starts_long (b ∷ buf) t in
      (long, omega (arith, some-injective 4 n (rw t at h), long))
  | inr f ↦ elim (Option-cases (find_header_end buf)) [
    | inl e ↦ cc (rw (f, e) at h)
    | inr (m, e) ↦
        let (long, inside) = find_header_end_bounds buf m e in
        (omega (arith, long), omega (arith, inside, some-injective (suc m) n (rw (f, e) at h)))
  ]
]

take_front : (n : ℕ) (buf more : List ℕ) → n ≤ length buf → take n (buf ++ more) ≡ take n buf
take_front zero buf more h = refl
take_front (suc n) [] more h = absurd (omega arith)
take_front (suc n) (b ∷ buf) more h = ap (◌∷◌ b) (take_front n buf more (omega arith))

-- More bytes change nothing.
pub find_header_end-append :
    (buf more : List ℕ) (n : ℕ)
    → find_header_end buf ≡ some n
    → find_header_end (buf ++ more) ≡ some n
unfolding find_header_end
find_header_end-append [] more n h = cc h
find_header_end-append (b ∷ buf) more n h =
    let (long, inside) = find_header_end_bounds (b ∷ buf) n h in
    let front = take_front 3 buf more (omega (arith, long)) in
    elim (Bool-cases (list_beq (take 4 (b ∷ buf)) end_mark)) [
      | inl t ↦ rw (front, t) (rw t at h)
      | inr f ↦ elim (Option-cases (find_header_end buf)) [
        | inl e ↦ cc (rw (f, e) at h)
        | inr (m, e) ↦ rw (front, f, find_header_end-append buf more m e) (rw (f, e) at h)
      ]
    ]

positive : (buf : List ℕ) (k : ℕ) → find_header_end buf ≡ some k → 0 < k
unfolding find_header_end
positive [] k h = cc h
positive (b ∷ buf) k h = elim (Bool-cases (list_beq (take 4 (b ∷ buf)) end_mark)) [
  | inl t ↦ omega (arith, some-injective 4 k (rw t at h))
  | inr f ↦ elim (Option-cases (find_header_end buf)) [
    | inl e ↦ cc (rw (f, e) at h)
    | inr (m, e) ↦ omega (arith, some-injective (suc m) k (rw (f, e) at h))
  ]
]

-- A part in which no end is found ends before it.
pub find_header_end_short :
    (acc bytes : List ℕ) (k : ℕ)
    → find_header_end (acc ++ bytes) ≡ some k
    → find_header_end acc ≡ none
    → length acc < k
unfolding find_header_end
find_header_end_short [] bytes k e h = positive bytes k e
find_header_end_short (b ∷ acc) bytes k e h =
    elim (Bool-cases (list_beq (take 4 (b ∷ acc)) end_mark)) [
      | inl t ↦ cc (rw t at h)
      | inr f ↦ elim (Option-cases (find_header_end acc)) [
        | inr (m, g) ↦ cc (rw (f, g) at h)
        | inl g ↦ elim (Bool-cases (list_beq (take 4 (b ∷ (acc ++ bytes))) end_mark)) [
          | inl t ↦ elim (Bool-cases (ltb (length acc) 3)) [
            | inl l ↦ ground (arith, l, some-injective 4 k (rw t at e))
            | inr l ↦
                let front = take_front 3 acc bytes (ground (arith, l)) in cc (rw front at t, f)
          ]
          | inr u ↦ elim (Option-cases (find_header_end (acc ++ bytes))) [
            | inl x ↦ cc (rw (u, x) at e)
            | inr (m, x) ↦ omega (
              arith,
              find_header_end_short acc bytes m x g,
              some-injective (suc m) k (rw (u, x) at e),
            )
          ]
        ]
      ]
    ]

-- Behind the end that is found stands `body`.
abbrev pub EndsAt : List ℕ → List ℕ → Type 0
EndsAt buf body = (k : ℕ) × (find_header_end buf ≡ some k) × (drop k buf ≡ body)

ends_next :
    (b : ℕ) (buf body : List ℕ)
    → list_beq (take 4 (b ∷ buf)) end_mark ≡ false
    → EndsAt buf body
    → EndsAt (b ∷ buf) body
unfolding find_header_end
ends_next b buf body f (k, e, d) = (suc k, rw (f, e) refl, d)

-- Bytes without a carriage return in front.
pub ends_text :
    (text buf body : List ℕ)
    → contains 13 text ≡ false
    → EndsAt buf body
    → EndsAt (text ++ buf) body
unfolding contains
ends_text [] buf body h e = e
ends_text (b ∷ text) buf body h e = elim (Bool-cases (b == 13)) [
  | inl t ↦ cc (rw t at h)
  | inr f ↦ ends_next b (text ++ buf) body (rw f refl) (ends_text text buf body (rw f at h) e)
]

-- A line that ends, and the next one, which is not empty.
pub ends_line :
    (c : ℕ) (text buf body : List ℕ)
    → contains 13 (c ∷ text) ≡ false
    → EndsAt buf body
    → EndsAt (13 ∷ 10 ∷ c ∷ (text ++ buf)) body
unfolding contains
ends_line c text buf body h e = elim (Bool-cases (c == 13)) [
  | inl t ↦ cc (rw t at h)
  | inr f ↦
      ends_next 13 (10 ∷ c ∷ (text ++ buf)) body (rw f refl)
        (ends_next 10 (c ∷ (text ++ buf)) body refl (ends_text (c ∷ text) buf body h e))
]

pub ends_here : (body : List ℕ) → EndsAt (13 ∷ 10 ∷ 13 ∷ 10 ∷ body) body
unfolding find_header_end
ends_here body = (4, refl, refl)

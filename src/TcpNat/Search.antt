-- ===== src/TcpNat/Search.antt =====
-- The port search of crates/clash-tun/src/nat.rs against the arithmetic progression that it walks.
use rust_clash.Common.{
  ℕ, zero, suc, ◌+◌, ◌-◌, ◌%◌, ◌≤◌, ◌<◌, ◌≡◌, refl, ◌⊎◌, inl, inr, true, false, List, arith,
  contains_key, nat_eq, Bool-cases, ◌∙◌,
}
use rust_clash.TcpNat.{TcpSession, candidate, advance, search_port}

-- The index is 0, or a port of the range.
abbrev pub IsIndex : ℕ → Type 0
IsIndex i = (i ≡ 0) ⊎ ((10000 ≤ i) × (i < 65536))

-- The port at distance `k` from the index, round the 55536 ports from 10000 to 65535.
abbrev pub probe : ℕ → ℕ → ℕ
probe i k = 10000 + (candidate i - 10000 + k) % 55536

-- A found port and the index after it.
abbrev pub InRange : ℕ × ℕ → Type 0
InRange r = (10000 ≤ r.0) × (r.0 < 65536) × IsIndex r.1

pub advance-IsIndex : (i : ℕ) → IsIndex i → IsIndex (advance i)
advance-IsIndex i h = ground arith

candidate_range : (i : ℕ) → IsIndex i → (10000 ≤ candidate i) × (candidate i < 65536)
candidate_range i h = ground arith

probe-zero : (i : ℕ) → IsIndex i → candidate i ≡ probe i 0
probe-zero i h = ground arith

probe-suc : (i k : ℕ) → IsIndex i → probe (advance i) k ≡ probe i (suc k)
probe-suc i k h = ground arith

module _ (ports : List (ℕ × TcpSession)) where
  abbrev pub IsTaken : ℕ → Type 0
  IsTaken p = contains_key p ports ≡ true

  search_go :
      (n next i : ℕ)
      → IsTaken (candidate i)
      → search_port (suc n) ports next i ≡ search_port n ports (candidate i) (advance i)
  unfolding search_port
  search_go n next i t = rw t

  search_stop :
      (n next i : ℕ)
      → contains_key (candidate i) ports ≡ false
      → search_port (suc n) ports next i ≡ (candidate i, advance i)
  unfolding search_port
  search_stop n next i t = rw t

  search_end : (next i : ℕ) → (search_port 0 ports next i).0 ≡ next
  unfolding search_port
  search_end next i = refl

  search_end_index : (next i : ℕ) → (search_port 0 ports next i).1 ≡ i
  unfolding search_port
  search_end_index next i = refl

  search_zero : (next i : ℕ) → search_port 0 ports next i ≡ (next, i)
  unfolding search_port
  search_zero next i = refl

  -- Where the search ends, if it begins on a port of the range: in the range.
  search_InRange :
      (n next i : ℕ)
      → (10000 ≤ next) × (next < 65536)
      → IsIndex i
      → InRange (search_port n ports next i)
  search_InRange zero next i r h = rw search_zero (r.0, r.1, h)
  search_InRange (suc n) next i r h = elim (Bool-cases (contains_key (candidate i) ports)) [
    | inl t ↦
        rw (search_go n next i t)
          (search_InRange n (candidate i) (advance i) (candidate_range i h) (advance-IsIndex i h))
    | inr f ↦
        rw (search_stop n next i f)
          ((candidate_range i h).0, (candidate_range i h).1, advance-IsIndex i h)
  ]

  search_suc :
      (n next other i : ℕ) → search_port (suc n) ports next i ≡ search_port (suc n) ports other i
  unfolding search_port
  search_suc n next other i = refl

  pub search_port_range : (n next i : ℕ) → IsIndex i → InRange (search_port (suc n) ports next i)
  search_port_range n next i h =
      rw (search_suc n next 10000 i) (search_InRange (suc n) 10000 i (omega arith, omega arith) h)

  -- It ends on a taken port only if every port that it tried is taken.
  pub search_port-IsTaken :
      (n next i k : ℕ)
      → IsIndex i
      → IsTaken (search_port n ports next i).0
      → k < n
      → IsTaken (probe i k)
  search_port-IsTaken zero next i k h t lt = absurd (omega arith)
  search_port-IsTaken (suc n) next i zero h t lt =
      elim (Bool-cases (contains_key (candidate i) ports)) [
        | inl c ↦ rw (← probe-zero i h) c
        | inr f ↦ rw (← probe-zero i h) (rw (search_stop n next i f) at t)
      ]
  search_port-IsTaken (suc n) next i (suc k) h t lt =
      elim (Bool-cases (contains_key (candidate i) ports)) [
        | inl c ↦ rw (← probe-suc i k h) (
            search_port-IsTaken n (candidate i) (advance i) k (advance-IsIndex i h)
              (rw (search_go n next i c) at t) (omega arith))
        | inr f ↦ cc (rw (search_stop n next i f) at t)
      ]

  -- And it ends on the last port that it tried, if all are taken.
  pub search_port_full :
      (n next i : ℕ)
      → IsIndex i
      → ((k : ℕ) → k < suc n → IsTaken (probe i k))
      → (search_port (suc n) ports next i).0 ≡ probe i n
  search_port_full zero next i h t =
      rw (search_go 0 next i (rw (probe-zero i h) (t 0 (omega arith))), search_zero)
        (probe-zero i h)
  search_port_full (suc n) next i h t =
      rw (search_go (suc n) next i (rw (probe-zero i h) (t 0 (omega arith)))) (
        search_port_full n (candidate i) (advance i) (advance-IsIndex i h)
          (λ k lt. rw (probe-suc i k h) (t (suc k) (omega arith)))
        ∙ probe-suc i n h)

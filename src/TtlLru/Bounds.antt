-- ===== src/TtlLru/Bounds.antt =====
-- crates/clash-core/src/utils.rs: the cache stays within its capacity, and holds what was set.
use rust_clash.Common.{
  ℕ, zero, suc, ◌+◌, ◌-◌, ◌*◌, ◌≤◌, ◌≡◌, refl, sym, ◌∙◌, Bool, true, false, Option, none, some,
  List, [], ◌∷◌, arith, ltb, leb, length, take, lookup, Bool-cases, inl, inr, Option-cases, insert,
  remove, retain, list_eq, nat_eq, IsMap, IsNodup, contains, contains_key, remove-IsMap,
  insert-IsMap, length-remove, lookup-remove, beq-cases, some_of_is_some, AllIn, AllIn-remove,
  All-take, length-take, ltb→lt, lookup-insert_ne, lookup-insert_self,
}
use mathlib.Core.Path.{subst}
use mathlib.Core.Option.{get_or}
use rust_clash.Text.{Str}
use rust_clash.TtlLru.{TtlLru, Entry, new, get, set, trim_map, remove_all}

module _ {T : Type 0} where
  lookup-retain_absent :
      (p : Str → Entry T → Bool) (m : List (Str × Entry T)) (k : Str)
      → lookup k m ≡ none
      → lookup k (retain p m) ≡ none
  unfolding lookup retain
  lookup-retain_absent p [] k h = refl
  lookup-retain_absent p ((j, e) ∷ m) k h = ground (arith, lookup-retain_absent p m k)

  lookup-retain_found :
      (p : Str → Entry T → Bool) (m : List (Str × Entry T)) (k : Str) (e : Entry T)
      → IsMap m
      → lookup k (retain p m) ≡ some e
      → lookup k m ≡ some e
  unfolding lookup retain
  lookup-retain_found p [] k e u h = h
  lookup-retain_found p ((j, f) ∷ m) k e u h = elim (beq-cases j k) [
    | inl x ↦
        let b : list_eq.beq j k ≡ true = (list_eq.beq_iff j k).1 x in
        let absent : lookup k (retain p m) ≡ none = lookup-retain_absent p m k (rw (← x) u.0) in
        elim (Bool-cases (p j f)) [
          | inl t ↦ let same : some f ≡ some e = rw (t, b) at h in rw b same
          | inr t ↦ let below : lookup k (retain p m) ≡ some e = rw t at h in cc (absent, below)
        ]
    | inr n ↦ elim (Bool-cases (p j f)) [
      | inl t ↦
          let below : lookup k (retain p m) ≡ some e = rw (t, n.1) at h in
          rw n.1 (lookup-retain_found p m k e u.1 below)
      | inr t ↦
          let below : lookup k (retain p m) ≡ some e = rw t at h in
          rw n.1 (lookup-retain_found p m k e u.1 below)
    ]
  ]

  retain-IsMap :
      (p : Str → Entry T → Bool) (m : List (Str × Entry T)) → IsMap m → IsMap (retain p m)
  unfolding retain
  retain-IsMap p [] u = tt
  retain-IsMap p ((j, e) ∷ m) u = elim (Bool-cases (p j e)) [
    | inl t ↦ rw t (lookup-retain_absent p m j u.0, retain-IsMap p m u.1)
    | inr f ↦ rw f (retain-IsMap p m u.1)
  ]

  remove_all-IsMap : (ks : List Str) (m : List (Str × Entry T)) → IsMap m → IsMap (remove_all ks m)
  unfolding remove_all
  remove_all-IsMap [] m u = u
  remove_all-IsMap (k ∷ ks) m u = remove_all-IsMap ks (remove k m) (remove-IsMap k m u)

  lookup-remove_found :
      (k j : Str) (m : List (Str × Entry T)) (e : Entry T)
      → lookup j (remove k m) ≡ some e
      → lookup j m ≡ some e
  lookup-remove_found k j m e h = ground (arith, lookup-remove k j m)

  lookup-remove_all_found :
      (ks : List Str) (j : Str) (m : List (Str × Entry T)) (e : Entry T)
      → lookup j (remove_all ks m) ≡ some e
      → lookup j m ≡ some e
  unfolding remove_all
  lookup-remove_all_found [] j m e h = h
  lookup-remove_all_found (k ∷ ks) j m e h =
      lookup-remove_found k j m e (lookup-remove_all_found ks j (remove k m) e h)

  -- Removing different keys that are there takes away as many entries.
  length-remove_all :
      (ks : List Str) (m : List (Str × Entry T))
      → IsMap m
      → IsNodup ks
      → AllIn m ks
      → length (remove_all ks m) + length ks ≡ length m
  unfolding remove_all
  length-remove_all [] m u d a = omega arith
  length-remove_all (k ∷ ks) m u d a =
      let (e, h) = some_of_is_some (lookup k m) a.0 in
      omega (
        arith,
        length-remove k e m u h,
        length-remove_all ks (remove k m) (remove-IsMap k m u) d.1 (AllIn-remove k m ks d.0 a.1),
      )

contains-take :
    (n : ℕ) (k : Str) (ks : List Str) → contains k ks ≡ false → contains k (take n ks) ≡ false
unfolding contains
contains-take zero k ks h = refl
contains-take (suc n) k [] h = refl
contains-take (suc n) k (x ∷ ks) h = ground (arith, contains-take n k ks)

take-IsNodup : (n : ℕ) (ks : List Str) → IsNodup ks → IsNodup (take n ks)
take-IsNodup zero ks d = tt
take-IsNodup (suc n) [] d = tt
take-IsNodup (suc n) (k ∷ ks) d = (contains-take n k ks d.0, take-IsNodup n ks d.1)

of_same : {T : Type 0} (Q : T → Type 0) (e f : T) → some e ≡ some f → Q e → Q f
of_same Q e f h q = subst (λ o. elim o [ none ↦ Unit {0} | some x ↦ Q x ]) h q

module _ {T : Type 0} where
  -- A cache in which no key stands twice, within its capacity, whose values satisfy `P` with their
  -- keys.
  abbrev pub IsValid : (Str → T → Type 0) → TtlLru T → Type 0
  IsValid P cache =
      IsMap cache.inner
      × (length cache.inner ≤ cache.capacity)
      × ((k : Str) (e : Entry T) → lookup k cache.inner ≡ some e → P k e.value)

  pub new-IsValid : (P : Str → T → Type 0) (capacity : ℕ) → IsValid P (new capacity)
  unfolding lookup
  new-IsValid P capacity = (tt, omega arith, λ k e h. cc h)

  -- What `get` answers of a valid cache satisfies `P` with the key, and the cache stays valid.
  pub get-IsValid :
      (P : Str → T → Type 0) (now : ℕ) (cache : TtlLru T) (key : Str)
      → IsValid P cache
      → IsValid P (get now cache key).1
        × ((value : T) → (get now cache key).0 ≡ some value → P key value)
  unfolding get
  get-IsValid P now cache key valid = elim (Option-cases (lookup key cache.inner)) [
    | inl h ↦ rw (get, h) (valid, λ value e. cc e)
    | inr (e, h) ↦ elim (Bool-cases (ltb e.expire now)) [
      | inl t ↦
          rw (get, h, t)
            (
              (
                remove-IsMap key cache.inner valid.0,
                omega (arith, length-remove key e cache.inner valid.0 h, valid.1),
                λ k f g. valid.2 k f (lookup-remove_found key k cache.inner f g),
              ),
              λ value e. cc e,
            )
      | inr f ↦
          rw (get, h, f) (valid, λ value same. of_same (P key) e.value value same (valid.2 key e h))
    ]
  ]

module _ {T : Type 0} (keys : List (Str × Entry T) → List Str) where
  -- What `HashMap::keys` promises: each key of the map once.
  abbrev pub KeysLaw : Type 0
  KeysLaw =
      (m : List (Str × Entry T))
      → IsMap m
      → IsNodup (keys m) × AllIn m (keys m) × (length (keys m) ≡ length m)

  trim_map-IsMap :
      (later capacity : ℕ) (m : List (Str × Entry T))
      → IsMap m
      → IsMap (trim_map keys later capacity m)
  unfolding trim_map
  trim_map-IsMap later capacity m u =
      let live = retain (λ k e. leb later e.expire) m in
      let v = retain-IsMap (λ k e. leb later e.expire) m u in
      elim (Bool-cases (ltb capacity (length live))) [
        | inl t ↦ rw t (remove_all-IsMap (take (length live - capacity) (keys live)) live v)
        | inr f ↦ rw f v
      ]

  length-trim_map :
      (later capacity : ℕ) (m : List (Str × Entry T))
      → KeysLaw
      → IsMap m
      → length (trim_map keys later capacity m) ≤ capacity
  unfolding trim_map
  length-trim_map later capacity m law u =
      let live = retain (λ k e. leb later e.expire) m in
      let v = retain-IsMap (λ k e. leb later e.expire) m u in
      let (nodup, present, count) = law live v in
      let extra = length live - capacity in
      elim (Bool-cases (ltb capacity (length live))) [
        | inl t ↦ rw t (
            omega (
              arith,
              ltb→lt capacity (length live) t,
              count,
              length-take extra (keys live),
              length-remove_all (take extra (keys live)) live v
                  (take-IsNodup extra (keys live) nodup)
                  (All-take (λ k. contains_key k live ≡ true) extra (keys live) present),
            ))
        | inr f ↦ rw f (ground arith)
      ]

  lookup-trim_map :
      (later capacity : ℕ) (m : List (Str × Entry T)) (k : Str) (e : Entry T)
      → IsMap m
      → lookup k (trim_map keys later capacity m) ≡ some e
      → lookup k m ≡ some e
  unfolding trim_map
  lookup-trim_map later capacity m k e u h =
      let live = retain (λ k e. leb later e.expire) m in
      let below = lookup-retain_found (λ k e. leb later e.expire) m k e u in
      elim (Bool-cases (ltb capacity (length live))) [
        | inl t ↦ below (
            lookup-remove_all_found (take (length live - capacity) (keys live)) k live e
              (rw t at h))
        | inr f ↦ below (rw f at h)
      ]

  -- When the keys are listed once each, `set` of a value that satisfies `P` with its key keeps a
  -- valid cache valid, whatever the clock reads.
  pub set-IsValid :
      (P : Str → T → Type 0) (now later : ℕ) (cache : TtlLru T) (key : Str) (value : T)
      (ttl : Option ℕ)
      → KeysLaw
      → IsValid P cache
      → P key value
      → IsValid P (set keys now later cache key value ttl)
  unfolding set
  set-IsValid P now later cache key value ttl law (u, small, holds) p =
      let e : Entry T = record { value = value; expire = now + get_or ttl (10 * 60) } in
      let m = insert key e cache.inner in
      let v = insert-IsMap key e cache.inner u in
      let kept : (k : Str) (f : Entry T) → lookup k m ≡ some f → P k f.value = λ k f h.
        elim (beq-cases key k) [
          | inl x ↦
              let found : lookup key m ≡ some f = subst (λ c. lookup c m ≡ some f) (sym x) h in
              rw (← x) (
                of_same (λ g. P key g.value) e f
                  (sym (lookup-insert_self key e cache.inner) ∙ found) p)
          | inr n ↦ holds k f (sym (lookup-insert_ne key k e cache.inner n.0) ∙ h)
        ] in
      elim (Bool-cases (ltb cache.capacity (length m))) [
        | inl t ↦ rw t (
          trim_map-IsMap later cache.capacity m v,
          length-trim_map later cache.capacity m law v,
          λ k f h. kept k f (lookup-trim_map later cache.capacity m k f v h),
        )
        | inr f ↦ rw f (v, ground arith, kept)
      ]

-- ===== src/TtlLru.antt =====
-- crates/clash-core/src/utils.rs: the cache TtlLru. Times are numbers; the order in which the
-- `HashMap` lists its keys is the argument `keys`.
pub mod Bounds
pub mod Order
mod Tests
use rust_clash.Common.{
  ℕ, ◌+◌, ◌-◌, ◌*◌, Bool, true, false, Option, none, some, List, [], ◌∷◌, ltb, leb, if◌then◌else◌,
  length, take, lookup, insert, remove, retain, list_eq, nat_eq,
}
use Prim.Native.Nat.{max}
use mathlib.Core.Option.{get_or}
use rust_clash.Text.{Str}

pub record Entry (T : Type 0) : Type 0 where
  pub value : T
  pub expire : ℕ

pub record TtlLru (T : Type 0) : Type 0 where
  pub inner : List (Str × Entry T)
  pub capacity : ℕ

module _ {T : Type 0} where
  abbrev pub new : ℕ → TtlLru T
  new capacity = record { inner = []; capacity = max capacity 16 }

  -- The answer, and the cache after the call at the time `now`.
  unfoldable pub get : ℕ → TtlLru T → Str → Option T × TtlLru T
  unfolding lookup remove
  get now cache key = elim (lookup key cache.inner) [
    | none ↦ (none, cache)
    | some e ↦
        if ltb e.expire now
        then (none, record { inner = remove key cache.inner; capacity = cache.capacity })
        else (some e.value, cache)
  ]

  unfoldable pub remove_all : List Str → List (Str × Entry T) → List (Str × Entry T)
  unfolding remove
  remove_all [] m = m
  remove_all (k ∷ ks) m = remove_all ks (remove k m)

  module _ (keys : List (Str × Entry T) → List Str) where
    -- Dropping what has expired at the time `later`, and then as many keys as are too many.
    unfoldable pub trim_map : ℕ → ℕ → List (Str × Entry T) → List (Str × Entry T)
    unfolding remove_all retain
    trim_map later capacity m =
        let live = retain (λ k e. leb later e.expire) m in
        if ltb capacity (length live)
        then remove_all (take (length live - capacity) (keys live)) live
        else live

    -- `set` reads the clock at `now` for the expiry and at `later` for the sweep; times are in
    -- seconds.
    unfoldable pub set : ℕ → ℕ → TtlLru T → Str → T → Option ℕ → TtlLru T
    unfolding trim_map insert
    set now later cache key value ttl =
        let m =
          insert key (record { value = value; expire = now + get_or ttl (10 * 60) }) cache.inner in
        record {
          inner = if ltb cache.capacity (length m) then trim_map later cache.capacity m else m;
          capacity = cache.capacity;
        }

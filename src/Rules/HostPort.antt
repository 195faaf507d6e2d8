-- ===== src/Rules/HostPort.antt =====
-- crates/clash-core/src/rules.rs: splitting what join_host_port joined.
use rust_clash.Common.{
  ℕ, suc, ◌+◌, ◌-◌, ◌≡◌, refl, ◌∙◌, true, false, none, some, [], ◌∷◌, ◌++◌, arith, ltb, ==_self,
  length, drop, at-of_drop, contains, nat_eq, Bool-cases, inl, inr, length-append, take-append_left,
  drop-append_left, drop-of_part,
}
use rust_clash.Text.{Str, is_empty}
use rust_clash.Rules.{
  find, rfind, count, starts_with, split_bracketed, split_plain, try_split_host_port,
  join_host_port,
}

find-append : (c : ℕ) (s t : Str) → contains c s ≡ false → find c (s ++ (c ∷ t)) ≡ some (length s)
unfolding find contains
find-append c [] t h = ground arith
find-append c (x ∷ s) t h = ground (arith, find-append c s t)

rfind-none : (c : ℕ) (s : Str) → contains c s ≡ false → rfind c s ≡ none
unfolding rfind contains
rfind-none c [] h = refl
rfind-none c (x ∷ s) h = ground (arith, rfind-none c s)

rfind-append : (c : ℕ) (s t : Str) → contains c t ≡ false → rfind c (s ++ (c ∷ t)) ≡ some (length s)
unfolding rfind
rfind-append c [] t h = rw (rfind-none c t h, ==_self c) refl
rfind-append c (x ∷ s) t h = rw (rfind-append c s t h) refl

count-none : (c : ℕ) (s : Str) → contains c s ≡ false → count c s ≡ 0
unfolding count contains
count-none c [] h = refl
count-none c (x ∷ s) h = ground (arith, count-none c s)

count-append :
    (c : ℕ) (s t : Str) → contains c s ≡ false → contains c t ≡ false → count c (s ++ (c ∷ t)) ≡ 1
unfolding count contains
count-append c [] t h k = rw (count-none c t k, ==_self c) refl
count-append c (x ∷ s) t h k = ground (arith, count-append c s t)

-- A host in brackets.
split_bracketed_lem :
    (host port : Str)
    → is_empty port ≡ false
    → split_bracketed ((b'[' ∷ host) ++ (b']' ∷ b':' ∷ port)) (suc (length host))
      ≡ some (host, port)
unfolding split_bracketed
split_bracketed_lem host port p =
    let whole = (b'[' ∷ host) ++ (b']' ∷ b':' ∷ port) in
    let tail : drop (suc (length host)) whole ≡ b']' ∷ b':' ∷ port =
      drop-append_left (b'[' ∷ host) (b']' ∷ b':' ∷ port) (suc (length host)) refl in
    let size = length-append (b'[' ∷ host) (b']' ∷ b':' ∷ port) in
    let within : ltb (suc (length host) + 1) (length whole) ≡ true = ground arith in
    let less : suc (length host) - 1 ≡ length host = omega arith in
    rw
      (
        within,
        at-of_drop (suc (length host)) 1 whole _ tail,
        drop-of_part (suc (length host)) 2 whole (b']' ∷ b':' ∷ []) port tail refl,
        p,
        less,
        take-append_left host (b']' ∷ b':' ∷ port) (length host) refl,
      )
      refl

split_plain_lem :
    (host port : Str)
    → is_empty host ≡ false
    → is_empty port ≡ false
    → split_plain (host ++ (b':' ∷ port)) (length host) ≡ some (host, port)
unfolding split_plain is_empty
split_plain_lem [] port h p = cc h
split_plain_lem (c ∷ host) port h p =
    let whole = (c ∷ host) ++ (b':' ∷ port) in
    let tail : drop (suc (length host)) whole ≡ b':' ∷ port =
      drop-append_left (c ∷ host) (b':' ∷ port) (suc (length host)) refl in
    let some_host : ltb 0 (suc (length host)) ≡ true = ground arith in
    rw
      (
        some_host,
        drop-of_part (suc (length host)) 1 whole (b':' ∷ []) port tail refl,
        p,
        take-append_left (c ∷ host) (b':' ∷ port) (suc (length host)) refl,
      )
      refl

by_bracket :
    (s : Str) (end : ℕ)
    → starts_with b'[' s ≡ true
    → find b']' s ≡ some end
    → try_split_host_port s ≡ split_bracketed s end
unfolding try_split_host_port
by_bracket s end h k = rw (h, k) refl

by_colon :
    (s : Str) (idx : ℕ)
    → starts_with b'[' s ≡ false
    → count b':' s ≡ 1
    → rfind b':' s ≡ some idx
    → try_split_host_port s ≡ split_plain s idx
unfolding try_split_host_port
by_colon s idx h n k = rw (h, n, k) refl

join_bracketed :
    (host port : Str)
    → contains b':' host ≡ true
    → starts_with b'[' host ≡ false
    → join_host_port host port ≡ (b'[' ∷ host) ++ (b']' ∷ b':' ∷ port)
unfolding join_host_port
join_bracketed host port h k = rw (h, k) refl

join_plain :
    (host port : Str)
    → contains b':' host ≡ false
    → join_host_port host port ≡ host ++ (b':' ∷ port)
unfolding join_host_port
join_plain host port h = rw h refl

starts_with-append :
    (c : ℕ) (s t : Str) → is_empty s ≡ false → starts_with c (s ++ t) ≡ starts_with c s
unfolding starts_with is_empty
starts_with-append c [] t h = cc h
starts_with-append c (x ∷ s) t h = refl

starts_with_bracket : (s : Str) → starts_with b'[' (b'[' ∷ s) ≡ true
unfolding starts_with
starts_with_bracket s = refl

find_bracket :
    (host port : Str)
    → contains b']' host ≡ false
    → find b']' ((b'[' ∷ host) ++ (b']' ∷ b':' ∷ port)) ≡ some (suc (length host))
unfolding contains
find_bracket host port h = find-append b']' (b'[' ∷ host) (b':' ∷ port) h

-- For a host that is not empty, does not begin with `[` and has no `]`, and a port that is not
-- empty and has no `:`, try_split_host_port finds in what join_host_port makes of them that host,
-- without the brackets around one with a `:`, and that port.
pub try_split_host_port-join_host_port :
    (host port : Str)
    → is_empty host ≡ false
    → starts_with b'[' host ≡ false
    → contains b']' host ≡ false
    → is_empty port ≡ false
    → contains b':' port ≡ false
    → try_split_host_port (join_host_port host port) ≡ some (host, port)
try_split_host_port-join_host_port host port full opened close p colon =
    elim (Bool-cases (contains b':' host)) [
      | inl t ↦ rw (join_bracketed host port t opened) (
          by_bracket _ (suc (length host)) (starts_with_bracket _) (find_bracket host port close)
          ∙ split_bracketed_lem host port p)
      | inr f ↦ rw (join_plain host port f) (
          by_colon _ (length host) (starts_with-append b'[' host (b':' ∷ port) full ∙ opened)
            (count-append b':' host port f colon) (rfind-append b':' host port colon)
          ∙ split_plain_lem host port full p)
    ]

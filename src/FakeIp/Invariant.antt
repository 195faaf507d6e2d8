-- ===== src/FakeIp/Invariant.antt =====
-- The invariant of the fake address pool of crates/clash-core/src/dns.rs, and that its operations
-- keep it.
use rust_clash.Common.{
  ℕ, suc, ◌≤◌, ◌≡◌, refl, ap, ◌∙◌, List, ◌∷◌, none, some, arith, length, list_eq, nat_eq, contains,
  IsNodup, Bool-cases, inl, inr, Inverse, Inverse-insert, Inverse-remove, IsMap, insert-IsMap,
  remove-IsMap, lookup, insert, remove, contains_key, is_some, length-insert, length-remove,
  contains_key-insert, contains_key-remove, AllKeys-insert, AllKeys-remove,
}
use rust_clash.Net.{Ipv4Addr, ip_eq}
use rust_clash.Text.{Str}
use rust_clash.FakeIp.{FakeIpPool, new, touch}
use rust_clash.FakeIp.Lru.{Moved, Popped, take_out-none, take_out-some}
use rust_clash.FakeIp.Window.{InWindow, IsPoolIp}

-- At most `n` hosts, each with an address of the pool of its own, and each once in the queue.
pub record IsValid (n : ℕ) (pool : FakeIpPool) : Type 0 where
  pub inverse : Inverse (λ (h : Str). h) pool.host_to_ip pool.ip_to_host
  pub hosts : IsMap pool.host_to_ip
  pub ips : IsMap pool.ip_to_host
  pub in_pool : (ip : Ipv4Addr) (h : Str) → lookup ip pool.ip_to_host ≡ some h → IsPoolIp ip
  pub recent : (h : Str) → contains h pool.lru ≡ contains_key h pool.host_to_ip
  pub once : IsNodup pool.lru
  pub queued : length pool.lru ≡ length pool.host_to_ip
  pub paired : length pool.ip_to_host ≡ length pool.host_to_ip
  pub bounded : length pool.host_to_ip ≤ n
  pub window : InWindow pool.next

pub new-IsValid : IsValid 8192 new
unfolding new lookup contains
new-IsValid = record {
  inverse = record { forward = λ h p e. cc; backward = λ p h e. cc };
  hosts = tt;
  ips = tt;
  in_pool = λ ip h e. cc;
  recent = λ h. refl;
  once = tt;
  queued = refl;
  paired = refl;
  bounded = omega arith;
  window = (omega arith, omega arith);
}

module _ (n : ℕ) where
  -- Moving a host to the front of the queue.
  reorder-IsValid :
      (pool : FakeIpPool) (h : Str) (rest : List Str)
      → IsValid n pool
      → Moved h pool.lru rest
      → IsValid n (record pool { lru = h ∷ rest })
  reorder-IsValid pool h rest v m = record {
    inverse = v.inverse;
    hosts = v.hosts;
    ips = v.ips;
    in_pool = v.in_pool;
    recent = λ x. m.members x ∙ v.recent x;
    once = m.once v.once;
    queued = m.measure ∙ v.queued;
    paired = v.paired;
    bounded = v.bounded;
    window = v.window;
  }

  pub touch-IsValid : (h : Str) (pool : FakeIpPool) → IsValid n pool → IsValid n (touch h pool)
  unfolding touch
  touch-IsValid h pool v = elim (Bool-cases (contains h pool.lru)) [
    | inl t ↦
        let (rest, found, moved) = take_out-some h pool.lru t in
        rw (found, touch) (reorder-IsValid pool h rest v moved)
    | inr f ↦ rw (take_out-none h pool.lru f, touch) v
  ]

  pub move-IsValid :
      (pool : FakeIpPool) (next : ℕ)
      → InWindow next
      → IsValid n pool
      → IsValid n (record pool { next = next })
  move-IsValid pool next w v = record {
    inverse = v.inverse;
    hosts = v.hosts;
    ips = v.ips;
    in_pool = v.in_pool;
    recent = v.recent;
    once = v.once;
    queued = v.queued;
    paired = v.paired;
    bounded = v.bounded;
    window = w;
  }

  -- Dropping the oldest host and its address.
  pub drop-IsValid :
      (pool : FakeIpPool) (rest : List Str) (h : Str) (ip : Ipv4Addr)
      → IsValid (suc n) pool
      → Popped pool.lru rest h
      → lookup h pool.host_to_ip ≡ some ip
      → IsValid n (record pool {
        lru = rest;
        host_to_ip = remove h pool.host_to_ip;
        ip_to_host = remove ip pool.ip_to_host;
      })
  drop-IsValid pool rest h ip v p e =
      let (k, back, same) = v.inverse.forward h ip e in
      let back' : lookup ip pool.ip_to_host ≡ some h = rw same at back in
      let fewer_hosts = length-remove h ip pool.host_to_ip v.hosts e in
      let fewer_ips = length-remove ip h pool.ip_to_host v.ips back' in
      record {
        inverse = Inverse-remove (λ (h : Str). h) _ _ v.inverse ip h back';
        hosts = remove-IsMap h pool.host_to_ip v.hosts;
        ips = remove-IsMap ip pool.ip_to_host v.ips;
        in_pool = AllKeys-remove IsPoolIp ip pool.ip_to_host v.in_pool;
        recent = λ x. p.members v.once x ∙ cc (contains_key-remove h x pool.host_to_ip, v.recent x);
        once = p.once v.once;
        queued = omega (arith, fewer_hosts, p.measure, v.queued);
        paired = omega (arith, fewer_hosts, fewer_ips, v.paired);
        bounded = omega (arith, fewer_hosts, v.bounded);
        window = v.window;
      }

  -- A new host at a free address, with the index moved on.
  pub add-IsValid :
      (pool : FakeIpPool) (h : Str) (ip : Ipv4Addr) (next : ℕ)
      → IsValid n pool
      → IsPoolIp ip
      → lookup ip pool.ip_to_host ≡ none
      → lookup h pool.host_to_ip ≡ none
      → InWindow next
      → IsValid (suc n) (record {
        host_to_ip = insert h ip pool.host_to_ip;
        ip_to_host = insert ip h pool.ip_to_host;
        lru = h ∷ pool.lru;
        next = next;
      })
  unfolding contains
  add-IsValid pool h ip next v p free fresh w = record {
    inverse = Inverse-insert (λ (h : Str). h) _ _ v.inverse ip h free fresh;
    hosts = insert-IsMap h ip pool.host_to_ip v.hosts;
    ips = insert-IsMap ip h pool.ip_to_host v.ips;
    in_pool = AllKeys-insert IsPoolIp ip h pool.ip_to_host p v.in_pool;
    recent = λ x. cc (contains_key-insert h x ip pool.host_to_ip, v.recent x);
    once = (v.recent h ∙ ap is_some fresh, v.once);
    queued = omega (arith, length-insert h ip pool.host_to_ip fresh, v.queued);
    paired = omega (
      arith,
      length-insert h ip pool.host_to_ip fresh,
      length-insert ip h pool.ip_to_host free,
      v.paired,
    );
    bounded = omega (arith, length-insert h ip pool.host_to_ip fresh, v.bounded);
    window = w;
  }

  pub weaken-IsValid :
      (m : ℕ) (pool : FakeIpPool) → length pool.host_to_ip ≤ m → IsValid n pool → IsValid m pool
  weaken-IsValid m pool h v = record {
    inverse = v.inverse;
    hosts = v.hosts;
    ips = v.ips;
    in_pool = v.in_pool;
    recent = v.recent;
    once = v.once;
    queued = v.queued;
    paired = v.paired;
    bounded = h;
    window = v.window;
  }

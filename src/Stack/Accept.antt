-- ===== src/Stack/Accept.antt =====
-- crates/clash-tun/src/stack.rs, lines 300 to 352 and 380 to 395, and the blocked resolvers of
-- crates/clash-core/src/dns.rs: what is done with a connection that the listener accepts. The
-- resolver of the outbound dialer is the argument `resolve`. The dialing itself and the copying are
-- not part of it; the answer says what is dialed.
use rust_clash.Common.{
  ℕ, ◌+◌, ◌*◌, ◌^◌, Bool, false, ◌&&◌, ◌||◌, Option, none, some, List, [], ◌∷◌, ◌++◌, map, ◌==◌,
  if◌then◌else◌, contains, nat_eq,
}
use rust_clash.Net.{Ipv4Addr, IpAddr}
use rust_clash.Text.{Str}
use rust_clash.Decimal.{to_string}
use rust_clash.TtlLru.{Entry}
use rust_clash.TcpNat.{lookup_back_inner}
use rust_clash.FakeIp.{lookback, is_fake_ip_v4}
use rust_clash.Rules.{RuleAction, RuleDb, match_domain, action_for_ip}
use rust_clash.Stack.{Stack, with_gate}

-- `u32::from_be_bytes` of the octets.
abbrev pub word_of : Ipv4Addr → ℕ
word_of ip = ip.a * 2 ^ 24 + ip.b * 2 ^ 16 + ip.c * 2 ^ 8 + ip.d

ip : ℕ → ℕ → ℕ → ℕ → Ipv4Addr
ip a b c d = record { a = a; b = b; c = c; d = d }

-- The addresses that `DohBlocklist::new` parses.
unfoldable pub doh_hosts : List Ipv4Addr
unfolding ip
doh_hosts =
    ip 1 1 1 1
    ∷ ip 1 0 0 1
    ∷ ip 8 8 8 8
    ∷ ip 8 8 4 4
    ∷ ip 9 9 9 9
    ∷ ip 149 112 112 112
    ∷ ip 208 67 222 222
    ∷ ip 208 67 220 220
    ∷ ip 94 140 14 14
    ∷ ip 94 140 15 15
    ∷ ip 1 12 12 12
    ∷ ip 120 53 53 53
    ∷ ip 223 5 5 5
    ∷ ip 223 6 6 6
    ∷ ip 76 76 21 21
    ∷ ip 185 222 222 222
    ∷ ip 45 90 28 167
    ∷ ip 45 90 30 167
    ∷ []

unfoldable pub is_blocked : IpAddr → Bool
unfolding doh_hosts contains
is_blocked (IpAddr.v4 v) = contains (word_of v) (map word_of doh_hosts)
is_blocked (IpAddr.v6 v) = false

-- What becomes of the connection: it is closed, it is served as DNS over TCP, a target is dialed
-- directly or through the proxy, or the name of the target was not resolved.
pub data Served : Type 0 where
  closed : Served
  dns_over_tcp : Served
  direct : Str → Served
  unresolved : Served
  proxied : Str → Served

-- `format!("{host}:{port}")`, and an address as `Display` writes it.
abbrev pub host_port : Str → ℕ → Str
host_port host port = host ++ (b':' ∷ to_string port)

abbrev pub ip_to_string : Ipv4Addr → Str
ip_to_string ip =
    to_string ip.a
    ++ (b'.' ∷ (to_string ip.b ++ (b'.' ∷ (to_string ip.c ++ (b'.' ∷ to_string ip.d)))))

unfoldable pub dial_direct : (Str → Option Ipv4Addr) → Option Str → Ipv4Addr → ℕ → Served
unfolding is_fake_ip_v4
dial_direct resolve host dst_ip dst_port =
    let plain = Served.direct (host_port (ip_to_string dst_ip) dst_port) in
    elim host [
      | none ↦ plain
      | some h ↦
          if is_fake_ip_v4 dst_ip
          then elim (resolve h) [
            | none ↦ Served.unresolved
            | some real ↦ Served.direct (host_port (ip_to_string real) dst_port)
          ]
          else plain
    ]

-- The `match` on the rule's decision.
unfoldable pub serve : (Str → Option Ipv4Addr) → RuleAction → Option Str → Ipv4Addr → ℕ → Served
unfolding dial_direct
serve resolve RuleAction.reject host dst_ip dst_port = Served.closed
serve resolve RuleAction.direct host dst_ip dst_port = dial_direct resolve host dst_ip dst_port
serve resolve RuleAction.proxy host dst_ip dst_port = elim host [
  | none ↦ Served.proxied (host_port (ip_to_string dst_ip) dst_port)
  | some h ↦ Served.proxied (host_port h dst_port)
]

-- The times that the rules' cache reads.
pub record Clock : Type 0 where
  pub seen : ℕ
  pub now : ℕ
  pub later : ℕ

module _ (parse_ip : Str → Option IpAddr) (idna : Str → Option Str)
    (keys : List (Str × Entry RuleAction) → List Str) (resolve : Str → Option Ipv4Addr) where
  -- The decision for a destination with the host that its address stands for.
  unfoldable pub route : Clock → Option Str → Ipv4Addr → ℕ → RuleDb → Served × RuleDb
  unfolding match_domain action_for_ip serve is_fake_ip_v4
  route clock host dst_ip dst_port rules = elim host [
    | none ↦
        if is_fake_ip_v4 dst_ip
        then (Served.closed, rules)
        else (serve resolve (action_for_ip (IpAddr.v4 dst_ip)) none dst_ip dst_port, rules)
    | some h ↦
        let (action, rules') =
          match_domain parse_ip idna keys clock.seen clock.now clock.later rules h in
        (serve resolve action (some h) dst_ip dst_port, rules')
  ]

  -- `handle_accepted`, at the time `now`, for a connection from `port` that is `stale` when the
  -- generation has changed since or its relay is cancelled.
  unfoldable pub handle_accepted : ℕ → Clock → Bool → ℕ → Stack → RuleDb → Served × Stack × RuleDb
  unfolding lookup_back_inner lookback is_blocked route
  handle_accepted now clock stale port s rules =
      let (found, g) = lookup_back_inner now port s.nat.gate in
      elim found [
        | none ↦ (Served.closed, with_gate g s, rules)
        | some (source, dest) ↦
            let (host, pool) = lookback dest.ip s.fake_ip in
            let (served, rules') = route clock host dest.ip dest.port rules in
            let looked = record (with_gate g s) { fake_ip = pool } in
            if stale
            then (Served.closed, with_gate g s, rules)
            else if dest.port == 53
            then (Served.dns_over_tcp, with_gate g s, rules)
            else if (dest.port == 443 || dest.port == 853) && is_blocked (IpAddr.v4 dest.ip)
            then (Served.closed, with_gate g s, rules)
            else (served, looked, rules')
      ]

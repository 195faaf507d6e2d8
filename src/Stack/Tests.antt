-- ===== src/Stack/Tests.antt =====
-- Runs of the packet thread and the listener of crates/clash-tun/src/stack.rs, and the theorems at
-- concrete inputs.
use rust_clash.Common.{
  nat_eq, get_elem?, ℕ, ◌+◌, ◌≡◌, refl, true, false, Option, none, some, List, [], ◌∷◌, ◌++◌, arith,
  length, replicate, be16, bytes_of_check, lookup, insert, remove, any_value, contains,
}
use rust_clash.Net.{Ipv4Addr, IpAddr, SocketAddrV4}
use rust_clash.Text.{Str, codes, is_empty}
use rust_clash.Utf8.{as_bytes, from_utf8_lossy}
use rust_clash.Utils.{domain_to_ascii}
use rust_clash.Packet
use rust_clash.TcpNat
use rust_clash.TcpNat.Invariant.{new-IsConsistent}
use rust_clash.FakeIp
use rust_clash.FakeIp.Invariant.{new-IsValid}
use rust_clash.FakeIp.Answer.{Registered}
use rust_clash.Dns
use rust_clash.Dns.Name.{IsName}
use rust_clash.TtlLru
use rust_clash.Rules.{RuleAction, RuleDb, match_domain}
use rust_clash.Stack.{
  Stack, start, is_tun_prefix, is_global_unicast, rewrite, send_back, send_out, process_tcp,
  process_packet, with_gate,
}
use rust_clash.Stack.Segment.{IsTcp}
use rust_clash.Stack.Session.{IsOutbound, Leaves, listener, local_end, process_packet_returns}
use rust_clash.Stack.Datagram.{IsUdp, IsDatagram}
use rust_clash.Stack.Answer.{process_packet_answers}
use rust_clash.Stack.Accept.{Clock, serve, handle_accepted}
use rust_clash.Stack.Named.{fake_end, named_connection}
use rust_clash.Stack.Invariant.{IsSound, here, next, swept, Reach-IsSound}
use rust_clash.Stack.NoPanic.{process_packet_runs}
use rust_clash.Stack.OverTcp.{frames, answers, handle_dns_tcp, handle_dns_tcp-frames}
use rust_clash.Stack.Tokens.{
  Accepted, Control, start_control, raise, swap, without, cancel_old, load_generation, load_relay,
  is_stale, Reach, raises, swaps, cancels, loads_generation, loads_relay,
}
use rust_clash.Stack.Control.{bump_generation_ends}

program : Unit {0}
unfolding Packet.fold_loop Packet.fold Packet.sum_words_from Packet.sum_words Packet.add_ip
    Packet.parse_ipv4 Packet.update_ip_checksum Packet.set_addresses Packet.set_total_length
    Packet.parse_udp Packet.pseudo_sum Packet.write_udp Packet.parse_tcp Packet.set_tcp_ports
    Packet.tcp_total Packet.update_tcp_checksum TcpNat.new TcpNat.search_port TcpNat.refresh
    TcpNat.claim TcpNat.lookup_inner TcpNat.lookup_back_inner TcpNat.has_destination lookup insert
    remove any_value contains is_empty as_bytes from_utf8_lossy domain_to_ascii FakeIp.new
    FakeIp.ip_of_bits FakeIp.touch FakeIp.is_skipped FakeIp.scan FakeIp.assign FakeIp.make_room
    FakeIp.lookup_ascii FakeIp.lookup_avoiding FakeIp.advance Dns.split Dns.drop_empty Dns.join
    Dns.encode_labels Dns.labels Dns.encode_dns_name Dns.read_labels Dns.read_dns_name
    Dns.finish_query Dns.parse_dns_query is_tun_prefix is_global_unicast rewrite send_back send_out
    process_tcp
program = tt

abbrev no_idna : Str → Option Str
no_idna s = none

abbrev s0 : Stack
s0 = start 60 4000

abbrev client : SocketAddrV4
client = record { ip = record { a = 10; b = 0; c = 0; d = 5 }; port = 5000 }

abbrev server : SocketAddrV4
server = record { ip = record { a = 1; b = 2; c = 3; d = 4 }; port = 443 }

-- A header of 20 bytes for a packet of `size`, and a segment of 20 bytes.
abbrev header : ℕ → ℕ → List ℕ → List ℕ
header size proto ends = 0x45 ∷ 0 ∷ (be16 size ++ (0 ∷ 7 ∷ 0x40 ∷ 0 ∷ 64 ∷ proto ∷ 0 ∷ 0 ∷ ends))

abbrev segment : ℕ → ℕ → List ℕ
segment sp dp = be16 sp ++ (be16 dp ++ (replicate 8 9 ++ (0x50 ∷ 0x12 ∷ replicate 6 0)))

abbrev there : List ℕ
there = header 40 6 (10 ∷ 0 ∷ 0 ∷ 5 ∷ 1 ∷ 2 ∷ 3 ∷ 4 ∷ []) ++ segment 5000 443

abbrev reply : List ℕ
reply = header 40 6 (172 ∷ 19 ∷ 0 ∷ 1 ∷ 172 ∷ 19 ∷ 0 ∷ 2 ∷ []) ++ segment 4000 10000

there-IsTcp : IsTcp 20 40 client server 0x12 20 there
unfolding program
there-IsTcp = record { parsed = refl; ports = refl }

reply-IsTcp : IsTcp 20 40 (listener 4000) (local_end 10000) 0x12 20 reply
unfolding program
reply-IsTcp = record { parsed = refl; ports = refl }

there-IsOutbound : IsOutbound 4000 client server
unfolding program
there-IsOutbound = record { program = refl; unicast = refl; outside = refl }

granted : TcpNat.lookup_inner 7 client server s0.nat.gate ≡ (
  some 10000,
  record {
    addr_map = (client, 10000) ∷ [];
    port_map = (10000, record { source = client; destination = server; last = 7 }) ∷ [];
    port_index = 10001;
  },
)
unfolding program
granted = refl

process_packet_returns_example :
    (out back : List ℕ) × (s' s'' : Stack) × (process_packet no_idna 7 there s0
      ≡ some (some out, s'))
    × Leaves 20 40 (local_end 10000) (listener 4000) 0x12 20 out
    × (process_packet no_idna 9 reply s' ≡ some (some back, s''))
    × Leaves 20 40 server client 0x12 20 back
process_packet_returns_example =
    process_packet_returns no_idna 7 9 there reply 20 40 20 40 client server 0x12 20 0x12 20 s0
      10000
      (record {
        addr_map = (client, 10000) ∷ [];
        port_map = (10000, record { source = client; destination = server; last = 7 }) ∷ [];
        port_index = 10001;
      })
      (new-IsConsistent 60) (omega arith) (bytes_of_check there refl) (omega arith) there-IsTcp
      there-IsOutbound granted (bytes_of_check reply refl) (omega arith) reply-IsTcp

abbrev name : Str
name = codes "a.b"

abbrev query : List ℕ
query = 0 ∷ 7 ∷ 1 ∷ 0 ∷ 0 ∷ 1 ∷ (replicate 6 0 ++ (1 ∷ 97 ∷ 1 ∷ 98 ∷ 0 ∷ 0 ∷ 1 ∷ 0 ∷ 1 ∷ []))

abbrev asker : Ipv4Addr
asker = record { a = 10; b = 0; c = 0; d = 5 }

abbrev fake_dns : Ipv4Addr
fake_dns = record { a = 198; b = 18; c = 0; d = 2 }

abbrev asks : List ℕ
asks =
    header 49 17 (10 ∷ 0 ∷ 0 ∷ 5 ∷ 198 ∷ 18 ∷ 0 ∷ 2 ∷ [])
    ++ (be16 6000 ++ (be16 53 ++ (be16 29 ++ (0 ∷ 0 ∷ query))))

asks-IsUdp : IsUdp 20 49 asker fake_dns 6000 53 query asks
unfolding program
asks-IsUdp = record { parsed = refl; ports = refl; carried = refl }

query_parses : Dns.parse_dns_query query ≡ some (7, name, 1)
unfolding program
query_parses = refl

name-IsName : IsName no_idna name
unfolding program
name-IsName = record { count = omega arith; each = omega arith }

few : 2 ≡ length (Dns.labels no_idna name)
unfolding program
few = refl

process_packet_answers_example :
    (let found =
        FakeIp.lookup_avoiding no_idna (λ ip. TcpNat.has_destination ip s0.nat) name s0.fake_ip in
      (out answer : List ℕ) × (process_packet no_idna 7 asks s0
        ≡ some (some out, record s0 { fake_ip = found.1 }))
      × IsUdp 20 (20 + (8 + length answer)) fake_dns asker 53 6000 answer out
      × IsDatagram 20 (20 + (8 + length answer)) fake_dns asker out
      × (Dns.parse_a_answers answer ≡ some (IpAddr.v4 found.0 ∷ []))
      × Registered (domain_to_ascii no_idna name) found.0 found.1)
process_packet_answers_example =
    process_packet_answers no_idna 7 asks query 20 49 asker fake_dns 6000 7 name s0 new-IsValid
      (new-IsConsistent 60) name-IsName (omega (arith, few)) (bytes_of_check asks refl) asks-IsUdp
      query_parses

-- The first address of the pool, at port 80.
abbrev fake : SocketAddrV4
fake = record { ip = record { a = 198; b = 18; c = 0; d = 4 }; port = 80 }

abbrev opens : List ℕ
opens = header 40 6 (10 ∷ 0 ∷ 0 ∷ 5 ∷ 198 ∷ 18 ∷ 0 ∷ 4 ∷ []) ++ segment 5000 80

fake_first : fake_end no_idna name 80 s0 ≡ fake
unfolding program
fake_first = refl

opens-IsTcp : IsTcp 20 40 client (fake_end no_idna name 80 s0) 0x12 20 opens
unfolding program
opens-IsTcp = record { parsed = refl; ports = refl }

abbrev session_table : TcpNat.Inner
session_table = record {
  addr_map = (client, 10000) ∷ [];
  port_map = (10000, record { source = client; destination = fake; last = 8 }) ∷ [];
  port_index = 10001;
}

opens_granted :
    TcpNat.lookup_inner 8 client (fake_end no_idna name 80 s0) s0.nat.gate
    ≡ (some 10000, session_table)
unfolding program
opens_granted = refl

abbrev no_parse : Str → Option IpAddr
no_parse s = none

abbrev no_keys : List (Str × TtlLru.Entry RuleAction) → List Str
no_keys entries = []

abbrev unresolved : Str → Option Ipv4Addr
unresolved s = none

abbrev clock : Clock
clock = record { seen = 9; now = 9; later = 9 }

abbrev no_rules : RuleDb
no_rules = record { records = []; cache = TtlLru.new 4 }

named_connection_example :
    (answered out answer : List ℕ) × (s' s'' : Stack) × (process_packet no_idna 7 asks s0
      ≡ some (some answered, s'))
    × IsUdp 20 (20 + (8 + length answer)) fake_dns asker 53 6000 answer answered
    × (Dns.parse_a_answers answer ≡ some (IpAddr.v4 (fake_end no_idna name 80 s0).ip ∷ []))
    × (process_packet no_idna 8 opens s' ≡ some (some out, s''))
    × Leaves 20 40 (local_end 10000) (listener 4000) 0x12 20 out
    × (let host = domain_to_ascii no_idna name in
        (handle_accepted no_parse no_idna no_keys unresolved 9 clock false 10000 s'' no_rules).0
        ≡ serve unresolved
            (match_domain no_parse no_idna no_keys 9 9 9 no_rules host).0
            (some host)
            (fake_end no_idna name 80 s0).ip
            80)
named_connection_example =
    named_connection no_parse no_idna no_keys unresolved 7 8 9 clock no_rules s0 asks query 20 49
      asker fake_dns 6000 7 name opens 20 40 client 80 0x12 20 10000 session_table new-IsValid
      (new-IsConsistent 60) (omega arith) name-IsName (omega (arith, few))
      (bytes_of_check asks refl) asks-IsUdp query_parses (bytes_of_check opens refl) (omega arith)
      opens-IsTcp refl opens_granted (omega arith)

process_packet_runs_example :
    (sent : Option (List ℕ) × Stack) × (process_packet no_idna 7 asks s0 ≡ some sent)
process_packet_runs_example = process_packet_runs no_idna 7 asks s0

Reach-IsSound_example : IsSound (with_gate (TcpNat.sweep_inner 9 s0.nat.timeout s0.nat.gate) s0)
Reach-IsSound_example =
    Reach-IsSound no_parse no_idna no_keys unresolved 60 4000 (omega arith) (next here (swept 9))

handle_dns_tcp-frames_example :
    handle_dns_tcp no_idna (frames no_idna ((query, (7, name, 1)) ∷ []) ++ (0 ∷ [])) s0 ≡ (
      let (out, s') = answers no_idna ((query, (7, name, 1)) ∷ []) s0 in
      let (more, s'') = handle_dns_tcp no_idna (0 ∷ []) s' in (out ++ more, s''))
handle_dns_tcp-frames_example =
    handle_dns_tcp-frames no_idna ((query, (7, name, 1)) ∷ []) (0 ∷ []) s0
      ((omega arith, omega arith, query_parses), tt)

-- A first bump raises the generation, a connection is handed over, the bump swaps the relay; a
-- second bump does both before the first one cancels its token.
abbrev accepting : Control
accepting = load_relay 1 (load_generation (raise start_control))

abbrev bumped : Control
bumped = cancel_old 0 (swap (raise (swap accepting)))

abbrev early : Accepted
early = record { generation = 1; relay = 0 }

abbrev fresh : Accepted
fresh = record { generation = 2; relay = 2 }

generation_loaded : (load_generation (raise start_control)).loading ≡ some 1
unfolding load_generation raise start_control
generation_loaded = refl

early_accepted : get_elem? accepting.accepted 0 ≡ some early
unfolding load_relay load_generation raise start_control
early_accepted = refl

first_replaced : contains 0 (swap (raise (swap accepting))).replaced ≡ true
unfolding contains swap raise load_relay load_generation start_control
first_replaced = refl

first_cancelled : contains 0 bumped.replaced ≡ false
unfolding contains cancel_old without swap raise load_relay load_generation start_control
first_cancelled = refl

now_bumped : (2 ≡ bumped.generation) × (2 ≡ bumped.relay)
unfolding cancel_old swap raise load_relay load_generation start_control
now_bumped = (refl, refl)

bump_generation_ends_example :
    (is_stale early bumped ≡ true) × (is_stale fresh bumped ≡ bumped.stopped)
bump_generation_ends_example =
    bump_generation_ends 0 early fresh
      (Reach.next (Reach.next (Reach.next Reach.here raises) loads_generation)
        (loads_relay 1 generation_loaded))
      early_accepted
      (Reach.next (Reach.next (Reach.next Reach.here raises) swaps) (cancels 0 first_replaced))
      first_cancelled now_bumped.0 now_bumped.1

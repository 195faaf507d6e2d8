-- ===== src/Stack/Answer.antt =====
-- crates/clash-tun/src/stack.rs: the tunnel's DNS server answers a query for an address with one of
-- the pool.
use rust_clash.Common.{
  ℕ, ◌+◌, ◌-◌, ◌*◌, ◌^◌, ◌<◌, ◌≤◌, ◌≡◌, inl, inr, refl, ◌∙◌, Bool, Option, some, List, [], ◌∷◌,
  ◌++◌, arith, length, length-append, be16, All, IsByte, append-All, bytes_of_check, at-All,
  All-take, All-drop,
}
use rust_clash.Net.{Ipv4Addr, IpAddr, IsIp, octets}
use rust_clash.Text.{Str}
use rust_clash.Utf8.{AllAscii}
use rust_clash.Utils.{domain_to_ascii}
use rust_clash.Packet.{parse_udp}
use rust_clash.TcpNat.{has_destination}
use rust_clash.TcpNat.Invariant.{IsConsistent}
use rust_clash.TcpNat.Count.{
  destinations, length-destinations, length-port_map, has_destination_listed,
}
use rust_clash.FakeIp.{FakeIpPool, lookup_ascii, lookup_avoiding}
use rust_clash.FakeIp.Window.{IsPoolIp}
use rust_clash.FakeIp.Invariant.{IsValid}
use rust_clash.FakeIp.Operations.{lookup_ascii-IsValid}
use rust_clash.FakeIp.Answer.{Registered, lookup_ascii_cases, lookup_ascii-Registered}
use rust_clash.Dns.{
  encode_labels, labels, encode_dns_name, parse_dns_query, parse_a_answers, build_named_a_response,
}
use rust_clash.Dns.Name.{IsLabel, IsName, IsName-IsLabel, encode_labels_cons}
use rust_clash.Dns.Frame.{header, answer, build_named_a_response_layout}
use rust_clash.Dns.Response.{parse_a_answers-build_named_a_response}
use rust_clash.Stack.Plain.{plain_dns, plain_packet, handle_dns-plain, process_packet-plain}
use rust_clash.Stack.{Stack, answer_query, handle_dns, process_packet, wrap_answer}
use rust_clash.Stack.Session.{parse_ipv4-IsIp}
use rust_clash.Stack.Datagram.{IsUdp, IsDatagram, wrap_answer_lem}

ascii_bytes : (l : Str) → AllAscii l → All IsByte l
ascii_bytes [] h = tt
ascii_bytes (c ∷ l) h = (omega (arith, h.0), ascii_bytes l h.1)

encode_labels_bytes :
    (ls : List Str)
    → All IsLabel ls
    → All IsByte (encode_labels ls) × (length (encode_labels ls) ≤ 64 * length ls + 1)
encode_labels_bytes [] v = unfold encode_labels in ((omega arith, tt), omega arith)
encode_labels_bytes (l ∷ ls) v =
    let (bytes, size) = encode_labels_bytes ls v.1 in
    rw (encode_labels_cons l ls v.0) (
      (
        (omega (arith, v.0.1), append-All IsByte l _ (ascii_bytes l v.0.2) bytes),
        omega (arith, v.0.1, length-append l (encode_labels ls), size),
      ))

-- The answer is a message of bytes that fits into a packet.
response_bytes :
    (idna : Str → Option Str) (id : ℕ) (qname : Str) (ip : Ipv4Addr)
    → IsName idna qname
    → IsIp ip
    → All IsByte (build_named_a_response idna id qname ip)
      × (28 + length (build_named_a_response idna id qname ip) < 2 ^ 16)
unfolding encode_dns_name
response_bytes idna id qname ip v i =
    let (bytes, size) = encode_labels_bytes (labels idna qname) (IsName-IsLabel idna qname v) in
    let name = encode_dns_name idna qname in
    let tail = be16 1 ++ (be16 1 ++ answer ip) in
    let tail_bytes : All IsByte tail =
      append-All IsByte (0 ∷ 1 ∷ 0 ∷ 1 ∷ 0xc0 ∷ 0x0c ∷ 0 ∷ 1 ∷ 0 ∷ 1 ∷ 0 ∷ 0 ∷ 1 ∷ 44 ∷ 0 ∷ 4 ∷ [])
        (octets ip)
        (bytes_of_check (0 ∷ 1 ∷ 0 ∷ 1 ∷ 0xc0 ∷ 0x0c ∷ 0 ∷ 1 ∷ 0 ∷ 1 ∷ 0 ∷ 0 ∷ 1 ∷ 44 ∷ 0 ∷ 4 ∷ [])
          refl)
        i in
    let flags : List ℕ = 0x85 ∷ 0x80 ∷ 0 ∷ 1 ∷ 0 ∷ 1 ∷ 0 ∷ 0 ∷ 0 ∷ 0 ∷ [] in
    let head_bytes : All IsByte (header id 0x8580 1) =
      (omega arith, (omega arith, bytes_of_check flags refl)) in
    rw (build_named_a_response_layout idna id qname ip) (
      (
        append-All IsByte (header id 0x8580 1) (name ++ tail) head_bytes
            (append-All IsByte name tail bytes tail_bytes),
        omega (arith, length-append name tail, size, v.count),
      ))

IsPoolIp-IsIp : (ip : Ipv4Addr) → IsPoolIp ip → IsIp ip
IsPoolIp-IsIp ip h =
    (omega (arith, h.net.0), (omega (arith, h.net.1), (h.high, (omega (arith, h.low.1), tt))))

fake-IsIp :
    (in_use : Ipv4Addr → Bool) (h : Str) (pool : FakeIpPool)
    → IsValid 8192 pool
    → IsIp (lookup_ascii in_use h pool).0
fake-IsIp in_use h pool v = elim (lookup_ascii_cases in_use h pool v) [
  | inl r ↦ IsPoolIp-IsIp _ ((lookup_ascii-IsValid in_use h pool v).in_pool _ h r.name)
  | inr (e, fresh, skipped) ↦ rw e (omega arith, (omega arith, (omega arith, (omega arith, tt))))
]

-- The address given to a host is the host's: the table has too few sessions to use up the window.
pub given-Registered :
    (host : Str) (s : Stack)
    → IsValid 8192 s.fake_ip
    → IsConsistent s.nat.gate
    → (let found = lookup_ascii (λ ip. has_destination ip s.nat) host s.fake_ip in
        Registered host found.0 found.1)
given-Registered host s v c =
    let sessions = s.nat.gate.port_map in
    lookup_ascii-Registered (λ ip. has_destination ip s.nat) (destinations sessions) host s.fake_ip
      (λ ip e. has_destination_listed ip s.nat e)
      (omega (arith, length-destinations sessions, length-port_map s.nat.gate c)) v

parse_udp-IsPort16 :
    (segment : List ℕ) (src dst len : ℕ)
    → All IsByte segment
    → parse_udp segment ≡ some (src, dst, len)
    → src < 2 ^ 16
unfolding parse_udp
parse_udp-IsPort16 segment src dst len bytes e =
    let long : 8 ≤ length segment = ground arith in
    let b0 = at-All IsByte segment 0 bytes (omega arith) in
    let b1 = at-All IsByte segment 1 bytes (omega arith) in ground arith

process_packet_udp :
    (idna : Str → Option Str) (now : ℕ) (packet query : List ℕ) (n t : ℕ) (src dst : Ipv4Addr)
    (port : ℕ) (s : Stack)
    → IsUdp n t src dst port 53 query packet
    → process_packet idna now packet s ≡ handle_dns idna src dst port query s
unfolding plain_packet
process_packet_udp idna now packet query n t src dst port s carries =
    process_packet-plain idna now packet s
    ∙ rw (carries.parsed, plain_packet) (rw (carries.ports, plain_packet) (rw carries.carried refl))

-- What `handle_dns` does when the answer can be wrapped.
handle_dns-some :
    (idna : Str → Option Str) (src dst : Ipv4Addr) (port : ℕ) (query out : List ℕ)
    (asked : ℕ × Str × ℕ) (s : Stack)
    → parse_dns_query query ≡ some asked
    → wrap_answer src dst port (answer_query idna asked s).0 ≡ some out
    → handle_dns idna src dst port query s ≡ some (some out, (answer_query idna asked s).1)
unfolding plain_dns
handle_dns-some idna src dst port query out asked s e k =
    handle_dns-plain idna src dst port query s ∙ rw (e, plain_dns) (rw k refl)

-- A query for the address of a name of at most 62 ASCII labels of at most 63 bytes, in a UDP
-- packet of bytes to port 53, is answered when the pool is valid: the packet sent goes back from
-- the same address and port to the client's, both of its checksums come out, and `parse_a_answers`
-- reads in it exactly the address that `lookup_avoiding` gives the name. Of the stack only the
-- pool changes, as `lookup_avoiding` changes it; and when the table of sessions is consistent, the
-- pool then holds that address for the name's ASCII form, and the name for the address: it never
-- falls back.
pub process_packet_answers :
    (idna : Str → Option Str) (now : ℕ) (packet query : List ℕ) (n t : ℕ) (client server : Ipv4Addr)
    (port id : ℕ) (qname : Str) (s : Stack)
    → IsValid 8192 s.fake_ip
    → IsConsistent s.nat.gate
    → IsName idna qname
    → length (labels idna qname) < 63
    → All IsByte packet
    → IsUdp n t client server port 53 query packet
    → parse_dns_query query ≡ some (id, qname, 1)
    → (let found = lookup_avoiding idna (λ ip. has_destination ip s.nat) qname s.fake_ip in
        (out reply : List ℕ) × (process_packet idna now packet s
          ≡ some (some out, record s { fake_ip = found.1 }))
        × IsUdp 20 (20 + (8 + length reply)) server client 53 port reply out
        × IsDatagram 20 (20 + (8 + length reply)) server client out
        × (parse_a_answers reply ≡ some (IpAddr.v4 found.0 ∷ []))
        × Registered (domain_to_ascii idna qname) found.0 found.1)
unfolding lookup_avoiding answer_query
process_packet_answers idna now packet query n t client server port id qname s v c name few bytes
      carries asked =
    let in_use : Ipv4Addr → Bool = λ ip. has_destination ip s.nat in
    let host = domain_to_ascii idna qname in
    let fake = (lookup_ascii in_use host s.fake_ip).0 in
    let reply = build_named_a_response idna id qname fake in
    let (reply_ok, small) =
      response_bytes idna id qname fake name (fake-IsIp in_use host s.fake_ip v) in
    let (src, dst) = parse_ipv4-IsIp packet _ bytes carries.parsed in
    let port_ok =
      parse_udp-IsPort16 _ _ _ _ (All-take IsByte (t - n) _ (All-drop IsByte n packet bytes))
        carries.ports in
    let (out, done, udp, whole) =
      wrap_answer_lem client server port reply src dst port_ok reply_ok small in
    (
      out,
      reply,
      process_packet_udp idna now packet query n t client server port s carries
          ∙ handle_dns-some idna client server port query out (id, qname, 1) s asked done,
      udp,
      whole,
      parse_a_answers-build_named_a_response idna id qname name fake few,
      given-Registered host s v c,
    )

-- ===== src/Lib.antt =====
-- rust-clash is a proxy client for the desktop. A local listener (crates/clash-
-- core/src/inbound.rs) or a TUN device (crates/clash-tun) takes connections, a rule database
-- decides for each destination whether it is reached directly, through a proxy, or not at all,
-- and crates/clash-proxynet speaks the protocols of the proxies. With the TUN device, names are
-- answered with addresses of a pool (fake IP), a packet to such an address is turned back into
-- the name, and TCP sessions are translated to a local listener, so that the operating system's
-- own TCP serves them.
--
-- This library models the parts that carry that logic, each as functions on explicit state, and
-- proves them correct. A `struct` is a record, an `enum` a data type, a method a function under
-- the method's name that takes the state and answers the new one. Numbers are natural numbers,
-- with the wrap-around or the masks of the code written out; strings are lists of code points
-- (Text), buffers lists of bytes (Common/Bytes, Common/Writes), a `HashMap` is an association
-- list (Common/Map) whose order carries no meaning. A panic is `none` (Common/Index has the
-- indexing, slicing and copying that panics), or the error `panicked` of Io and the answer
-- `panics` of WebSocket and Address. Locks are left out: a call of a shared table is one step.
--
-- The parts, their files and their code:
-- - TcpNat: crates/clash-tun/src/nat.rs, the table of TCP sessions: lookup, lookup_back, the
--   search for a free port, and the sweep of old sessions; TcpNat/Search, Invariant, Session,
--   Sweep and Count hold the proofs.
-- - FakeIp: crates/clash-core/src/dns.rs, the pool of fake addresses: lookup, lookup_avoiding,
--   lookback, touch and evict; FakeIp/Lru, Window, Invariant, Operations, Total and Answer hold
--   the proofs.
-- - Dns: crates/clash-core/src/dns.rs, the messages: parse_dns_query, parse_a_answers and the
--   four functions that build messages; Dns/Name, Frame, Query, Response and Echo hold the
--   proofs. Dns/Indexed and Dns/Built are the functions among them that the packet thread
--   calls, with every index checked, since those of Dns read 0 out of range.
-- - Packet: crates/clash-tun/src/packet.rs, the headers of IPv4, UDP and TCP with their
--   checksums; Packet/Sum, Checksum, Ip, Udp, Tcp and Kept hold the proofs. Packet/Indexed is
--   the three parsers with every index checked, as the packet thread calls them.
-- - Stack: crates/clash-tun/src/stack.rs, the packet thread (process_packet, handle_dns);
--   Stack/Accept is what becomes of an accepted connection (handle_accepted, dial_direct) with
--   the blocked resolvers of dns.rs, Stack/OverTcp the DNS over TCP, and Stack/Tokens the
--   generation and the relay tokens, with the statements of the threads as steps; Stack/Control
--   holds their proofs. Stack/Segment, Rewrite and Session hold the proofs about TCP packets,
--   Sized, Datagram and Answer those about DNS packets, Named those about both, Invariant those
--   about all steps, and Plain and NoPanic those about panics.
-- - TtlLru: crates/clash-core/src/utils.rs, the cache; TtlLru/Bounds holds the proofs, and
--   TtlLru/Order an order of the keys in which its law holds.
-- - Rules: crates/clash-core/src/rules.rs, the matching of domains and addresses, the cache in
--   front of it, and the splitting of host and port; Rules/Specific, Cached, HostPort and
--   Ranges hold the proofs.
-- - Vless: crates/clash-proxynet/src/vless.rs, the stream that strips the header of the
--   server's answer; Vless/Due and Stream hold the proofs.
-- - Io: the asynchronous reading of tokio, as the streams of crates/clash-proxynet/src use it:
--   the loop of a poll_read over an inner stream that gives its bytes in pieces, waits and
--   fails; Io/Steps and Io/Reads show what the calls deliver when each step keeps what is due;
--   Io/Writer is the loop of a poll_write and `write_all` over it, and Io/Writer/Law shows what
--   they put on the wire when each step keeps the account of it.
-- - Shadowsocks: crates/clash-proxynet/src/ss.rs, the sealed chunks in both directions;
--   Shadowsocks/Laws states what is asked of the ciphers, Frames the wire, and Nonce, Key,
--   Read, Write and Tunnel hold the proofs.
-- - Obfs: crates/clash-proxynet/src/obfs.rs, the streams dressed as HTTP (Obfs/Http) and as TLS
--   (Obfs/Tls); their Read, Write and Tunnel hold the proofs, Http/Header those of the end of a
--   header, Tls/Records the wire, and Tls/Hello the lengths of the hello. Decimal writes
--   numbers.
-- - WebSocket: crates/clash-proxynet/src/transport.rs, the frames of a WebSocket
--   (WebSocket/Frame) and the stream of them; WebSocket/Read, Write and Tunnel hold the proofs.
-- - Vision: crates/clash-proxynet/src/vision.rs, the reader of frames behind the user's
--   identifier, and in Vision/Uplink the writer; Vision/Frames is the wire, Due, Branches,
--   Handed, Framed, Read and Stream hold the proofs about the reader, Fuel those about the
--   rounds of its loop, Sent, Staged, Account and Write those about the writer, Tunnel those
--   about both.
-- - Address: crates/clash-proxynet/src/address.rs, the address of a destination on the wire;
--   Address/Written reads it back.
-- - Trojan: crates/clash-proxynet/src/trojan.rs, and sha224_hex_lower of crypto.rs: the
--   request; Trojan/Request holds the proofs.
-- - Net, Text, Utf8 and Utils: the addresses, strings and encodings of the Rust standard
--   library that these parts use, and domain_to_ascii of crates/clash-core/src/utils.rs.
-- - Common: what all share.
--
-- How they meet: Rules keeps its decisions in a TtlLru, FakeIp and Rules fold names by
-- domain_to_ascii, Dns writes the answers that carry the addresses of FakeIp, and Stack
-- rewrites the addresses and ports of a Packet by what TcpNat says, answers names with
-- addresses of FakeIp, and serves a connection as Rules decide for the name behind its address.
-- Shadowsocks, both streams of Obfs, WebSocket and Vision are readers of Io, and Obfs,
-- WebSocket and Vision also its writers, so that one theorem about reading and one about
-- writing serve them all: each shows that its steps keep what is due, and what was sent.
--
-- Arguments stand for code outside of the repository: `idna` for the crate idna, `parse_ip` for
-- the parser of IpAddr, `keys` for the order in which a HashMap lists its keys, `resolve` for
-- what the resolver of the outbound dialer answers, and the clock's readings for Instant::now;
-- the inner stream of Vless is the list of its answers. The record `Crypto` of Shadowsocks is
-- its ciphers, HKDF and MD5, and `random` the bytes drawn for a salt. `Draws` are the random
-- bytes, the base64 of a random key and the clock of the requests of Obfs, `mask_key` the masks
-- of WebSocket, `sha224` the digest of Trojan, `draw` the lengths of the paddings of Vision,
-- and `detach` what the session of Vision answers to vision_detach: the bytes that the raw
-- stream gives in front of those that arrive.
--
-- Bounds: the search of TcpNat and the loops of FakeIp run as many rounds as the code's own
-- counters give them; read_dns_name has the 64 rounds of the code; the loop of question_end has
-- the length of the query as fuel, of which each round uses one byte or more; fold makes two
-- rounds, which end the loop for every sum of 32 bits; the matching of labels and the reads of
-- Vless recurse on the labels and on the answers of the inner stream, and the loops of Io,
-- Obfs, WebSocket and Shadowsocks on the turns of the inner stream; the loop over the frames of
-- WebSocket has one round more than bytes were received, of which a frame takes two or more;
-- the loop of Vision has three rounds more than bytes are buffered, since a round takes bytes
-- or changes the mode for a later one; the digits of a number have the number and one as fuel;
-- the loop of handle_dns_tcp has the bytes received as fuel, of which a round reads two or
-- more; evp_bytes_to_key makes at most as many rounds as the key has bytes.
--
-- Not modelled: the user interface, the glue of the operating system (Wintun, routes, proxy
-- settings), sockets, TLS and the cryptography of libraries. The protocols VMess and REALITY,
-- the dialers of SOCKS5 and HTTP, the configuration, the listener and the loading of the rule
-- database are not part of the library yet.
pub mod Common
pub mod Net
pub mod Text
pub mod Utf8
pub mod Utils
pub mod TcpNat
pub mod FakeIp
pub mod Dns
pub mod Packet
pub mod Stack
pub mod TtlLru
pub mod Rules
pub mod Vless
pub mod Io
pub mod Decimal
pub mod Shadowsocks
pub mod Obfs
pub mod WebSocket
pub mod Vision
pub mod Address
pub mod Trojan

-- ===== src/Obfs.antt =====
-- crates/clash-proxynet/src/obfs.rs: simple-obfs, which dresses a stream as HTTP or as TLS.
mod Http
mod Tls

-- ===== src/Hpack/Repr.antt =====
-- ylong_http/src/h2/hpack/representation/mod.rs: header field representations and their prefixes.
pub mod Prefix
pub mod Decoder

-- ===== src/Hpack.antt =====
-- ylong_http/src/h2/hpack: header compression.
pub mod Integer
pub mod Table
pub mod Repr
pub mod Decoder

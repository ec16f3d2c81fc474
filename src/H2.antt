-- ===== src/H2.antt =====
-- The HTTP/2 vocabulary that the other parts share: ylong_http/src/h2.
pub mod Error
pub mod Fate
pub mod Parts

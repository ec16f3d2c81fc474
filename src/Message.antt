-- ===== src/Message.antt =====
-- What the messages of every HTTP version share: ylong_http/src/response/status.rs, request/method.rs and
-- version.rs.
pub mod Status
pub mod Method
pub mod Version

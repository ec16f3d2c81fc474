-- ===== src/Client.antt =====
-- ylong_http_client: the HTTP/2 streams of a connection and their windows.
pub mod Window
pub mod Streams

-- ===== src/Hpack/Table.antt =====
-- ylong_http/src/h2/hpack/table.rs: the static and the dynamic table, and the search in both.
pub mod Header
pub mod Static
pub mod StaticIndex
pub mod Search
pub mod Dynamic

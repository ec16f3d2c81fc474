-- ===== src/Hpack/Repr/Prefix.antt =====
-- ylong_http/src/h2/hpack/representation/mod.rs: the representations, and the prefix of each kind.
use commonlibrary_rust_ylong.Common.{ℕ, List, leb, if◌then◌else◌}

pub data Name : Type 0 where
  index : ℕ → Name
  literal : List ℕ → Name

pub data Representation : Type 0 where
  indexed : ℕ → Representation
  literal_with_indexing : Name → List ℕ → Representation
  literal_without_indexing : Name → List ℕ → Representation
  literal_never_indexed : Name → List ℕ → Representation
  size_update : ℕ → Representation

-- `PrefixBit`. Its constants are the only values that the code builds.
pub data PrefixBit : Type 0 where
  indexed literal_with_indexing size_update literal_never_indexed : PrefixBit
  literal_without_indexing : PrefixBit

unfoldable pub from_u8 : ℕ → PrefixBit
from_u8 byte =
    if leb 0x80 byte
    then indexed
    else if leb 0x40 byte
    then literal_with_indexing
    else if leb 0x20 byte
    then size_update
    else if leb 0x10 byte
    then literal_never_indexed
    else literal_without_indexing

-- The `u8` of a `PrefixIndexMask`.
unfoldable pub prefix_index_mask : PrefixBit → ℕ
prefix_index_mask indexed = 0x7f
prefix_index_mask literal_with_indexing = 0x3f
prefix_index_mask size_update = 0x1f
prefix_index_mask literal_never_indexed = 0x0f
prefix_index_mask literal_without_indexing = 0x0f

-- The `u8` of a `PrefixBit`.
unfoldable pub bits : PrefixBit → ℕ
bits indexed = 0x80
bits literal_with_indexing = 0x40
bits size_update = 0x20
bits literal_never_indexed = 0x10
bits literal_without_indexing = 0x00

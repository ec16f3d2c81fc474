-- ===== src/Hpack/Table/Header.antt =====
-- The header fields that the tables of ylong_http/src/h2/hpack/table.rs hold. A text is its bytes.
use commonlibrary_rust_ylong.Common.{ℕ, ◌+◌, ◌≡◌, refl, ap, List, Bool, true, false, length}
use commonlibrary_rust_ylong.Common.Text.{codes, bytes_eq, bytes_eq_iff}

pub data Header : Type 0 where
  authority method path scheme status : Header
  other : List ℕ → Header

pub data TableIndex : Type 0 where
  header_at name_at : ℕ → TableIndex

-- `Header::len`.
unfoldable pub len : Header → ℕ
len authority = 10
len method = 7
len path = 5
len scheme = 7
len status = 7
len (other s) = length s

unfoldable pub into_string : Header → List ℕ
into_string authority = codes ":authority"
into_string method = codes ":method"
into_string path = codes ":path"
into_string scheme = codes ":scheme"
into_string status = codes ":status"
into_string (other s) = s

-- The derived `==`.
unfoldable pub header_eq : Header → Header → Bool
header_eq authority authority = true
header_eq method method = true
header_eq path path = true
header_eq scheme scheme = true
header_eq status status = true
header_eq (other s) (other t) = bytes_eq s t
header_eq _ _ = false

pub header_eq→eq : (a b : Header) → header_eq a b ≡ true → a ≡ b
unfolding header_eq
header_eq→eq authority authority h = refl
header_eq→eq method method h = refl
header_eq→eq path path h = refl
header_eq→eq scheme scheme h = refl
header_eq→eq status status h = refl
header_eq→eq (other s) (other t) h = ap other ((bytes_eq_iff s t).0 h)
header_eq→eq _ _ h = cc

pub header_eq_refl : (a : Header) → header_eq a a ≡ true
unfolding header_eq
header_eq_refl (other s) = (bytes_eq_iff s s).1 refl
header_eq_refl authority = refl
header_eq_refl _ = refl

-- RFC 7541 4.1: the size of an entry.
abbrev pub entry_size : Header × List ℕ → ℕ
entry_size (h, v) = len h + length v + 32

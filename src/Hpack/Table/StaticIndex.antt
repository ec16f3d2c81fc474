-- ===== src/Hpack/Table/StaticIndex.antt =====
-- `StaticTable::index` and `index_headers` of ylong_http/src/h2/hpack/table.rs.
pub mod Sound
use commonlibrary_rust_ylong.Common.{
  ℕ, Option, none, some, List, [], ◌∷◌, Bool, true, ◌&&◌, if◌then◌else◌,
}
use commonlibrary_rust_ylong.Common.Text.{codes, bytes_eq}
use commonlibrary_rust_ylong.Hpack.Table.Header.{
  Header, authority, method, path, scheme, status, other, TableIndex, header_at, name_at,
}

-- One arm of the `match`: the name, the value or `_`, and the result.
pub record Arm : Type 0 where
  pub key : List ℕ
  pub value : Option (List ℕ)
  pub result : TableIndex

abbrev arm : List ℕ → Option (List ℕ) → TableIndex → Arm
arm key value result = record { key = key; value = value; result = result }

-- The arms of `index_headers`, in order.
unfoldable pub arms : List Arm
arms =
    arm (codes "accept-charset") none (name_at 15)
    ∷ arm (codes "accept-encoding") (some (codes "gzip, deflate")) (header_at 16)
    ∷ arm (codes "accept-encoding") none (name_at 16)
    ∷ arm (codes "accept-language") none (name_at 17)
    ∷ arm (codes "accept-ranges") none (name_at 18)
    ∷ arm (codes "accept") none (name_at 19)
    ∷ arm (codes "access-control-allow-origin") none (name_at 20)
    ∷ arm (codes "age") none (name_at 21)
    ∷ arm (codes "allow") none (name_at 22)
    ∷ arm (codes "authorization") none (name_at 23)
    ∷ arm (codes "cache-control") none (name_at 24)
    ∷ arm (codes "content-disposition") none (name_at 25)
    ∷ arm (codes "content-encoding") none (name_at 26)
    ∷ arm (codes "content-language") none (name_at 27)
    ∷ arm (codes "content-length") none (name_at 28)
    ∷ arm (codes "content-location") none (name_at 29)
    ∷ arm (codes "content-range") none (name_at 30)
    ∷ arm (codes "content-type") none (name_at 31)
    ∷ arm (codes "cookie") none (name_at 32)
    ∷ arm (codes "date") none (name_at 33)
    ∷ arm (codes "etag") none (name_at 34)
    ∷ arm (codes "expect") none (name_at 35)
    ∷ arm (codes "expires") none (name_at 36)
    ∷ arm (codes "from") none (name_at 37)
    ∷ arm (codes "host") none (name_at 38)
    ∷ arm (codes "if-match") none (name_at 39)
    ∷ arm (codes "if-modified-since") none (name_at 40)
    ∷ arm (codes "if-none-match") none (name_at 41)
    ∷ arm (codes "if-range") none (name_at 42)
    ∷ arm (codes "if-unmodified-since") none (name_at 43)
    ∷ arm (codes "last-modified") none (name_at 44)
    ∷ arm (codes "link") none (name_at 45)
    ∷ arm (codes "location") none (name_at 46)
    ∷ arm (codes "max-forwards") none (name_at 47)
    ∷ arm (codes "proxy-authenticate") none (name_at 48)
    ∷ arm (codes "proxy-authorization") none (name_at 49)
    ∷ arm (codes "range") none (name_at 50)
    ∷ arm (codes "referer") none (name_at 51)
    ∷ arm (codes "refresh") none (name_at 52)
    ∷ arm (codes "retry-after") none (name_at 53)
    ∷ arm (codes "server") none (name_at 54)
    ∷ arm (codes "set-cookie") none (name_at 55)
    ∷ arm (codes "strict-transport-security") none (name_at 56)
    ∷ arm (codes "transfer-encoding") none (name_at 57)
    ∷ arm (codes "user-agent") none (name_at 58)
    ∷ arm (codes "vary") none (name_at 59)
    ∷ arm (codes "via") none (name_at 60)
    ∷ arm (codes "www-authenticate") none (name_at 61)
    ∷ []

pub value_matches : Option (List ℕ) → List ℕ → Bool
value_matches none value = true
value_matches (some v) value = bytes_eq value v

-- The first arm that matches, as `match` takes it.
pub match_arms : List Arm → List ℕ → List ℕ → Option TableIndex
unfolding value_matches
match_arms [] key value = none
match_arms (a ∷ as') key value =
    if bytes_eq key a.key && value_matches a.value value
    then some a.result
    else match_arms as' key value

pub index_headers : List ℕ → List ℕ → Option TableIndex
unfolding match_arms arms
index_headers key value = match_arms arms key value

-- `StaticTable::index`.
unfoldable pub static_index : Header → List ℕ → Option TableIndex
unfolding index_headers
static_index authority value = some (name_at 1)
static_index method value =
    if bytes_eq value (codes "GET")
    then some (header_at 2)
    else if bytes_eq value (codes "POST")
    then some (header_at 3)
    else some (name_at 2)
static_index path value =
    if bytes_eq value (codes "/")
    then some (header_at 4)
    else if bytes_eq value (codes "/index.html")
    then some (header_at 5)
    else some (name_at 4)
static_index scheme value =
    if bytes_eq value (codes "http")
    then some (header_at 6)
    else if bytes_eq value (codes "https")
    then some (header_at 7)
    else some (name_at 6)
static_index status value =
    if bytes_eq value (codes "200")
    then some (header_at 8)
    else if bytes_eq value (codes "204")
    then some (header_at 9)
    else if bytes_eq value (codes "206")
    then some (header_at 10)
    else if bytes_eq value (codes "304")
    then some (header_at 11)
    else if bytes_eq value (codes "400")
    then some (header_at 12)
    else if bytes_eq value (codes "404")
    then some (header_at 13)
    else if bytes_eq value (codes "500")
    then some (header_at 14)
    else some (name_at 8)
static_index (other s) value = index_headers s value

-- ===== src/Headers.antt =====
-- ylong_http/src/headers.rs: names, values and the map of headers. A text is its bytes.
mod Chars
pub mod Names
pub mod Laws
use commonlibrary_rust_ylong.Common.{
  ℕ, Option, none, some, List, [], ◌∷◌, ◌++◌, Bool, true, ◌&&◌, ◌||◌, not, leb, ◌==◌, if◌then◌else◌,
}
use commonlibrary_rust_ylong.Common.Result.{Result, ok, err, ◌>>=◌}
use commonlibrary_rust_ylong.Common.Text.{bytes_eq}
use Chars.{header_char}

-- `ErrorKind::InvalidInput`, the one error of this file.
pub data InvalidInput : Type 0 where
  invalid_input : InvalidInput

-- The loop of `HeaderName::normalize`, with `dst` as an accumulator.
normalize_loop : List ℕ → List ℕ → Result (List ℕ) InvalidInput
unfolding header_char
normalize_loop dst [] = ok dst
normalize_loop dst (byte ∷ input) =
    let b = header_char byte in
    let rest = normalize_loop (dst ++ b ∷ []) input in if b == 0 then err invalid_input else rest

-- `HeaderName::from_bytes`.
unfoldable pub normalize : List ℕ → Result (List ℕ) InvalidInput
unfolding normalize_loop
normalize input = normalize_loop [] input

pub record HeaderValue : Type 0 where
  pub inner : List (List ℕ)
  pub is_sensitive : Bool

unfoldable pub is_valid : ℕ → Bool
is_valid b = leb 32 b && not (b == 127) || b == 9

all_valid : List ℕ → Bool
unfolding is_valid
all_valid [] = true
all_valid (b ∷ bytes) = is_valid b && all_valid bytes

-- `HeaderValue::from_bytes`.
unfoldable pub value_from_bytes : List ℕ → Result HeaderValue InvalidInput
unfolding all_valid
value_from_bytes bytes =
    if not (all_valid bytes)
    then err invalid_input
    else ok (record { inner = bytes ∷ []; is_sensitive = Bool.false })

-- `HeaderValue::append`.
unfoldable pub append_value : HeaderValue → HeaderValue → HeaderValue
append_value v other = record v { inner = v.inner ++ other.inner }

-- `append_bytes`.
pub append_bytes : HeaderValue → List ℕ → Result HeaderValue InvalidInput
unfolding all_valid
append_bytes v bytes =
    if not (all_valid bytes)
    then err invalid_input
    else ok (record v { inner = v.inner ++ bytes ∷ [] })

-- The hash map, as a list of its entries; a name stands there once. The order is never observed.
abbrev pub Headers : Type 0
Headers = List (List ℕ × HeaderValue)

unfoldable pub map_get : Headers → List ℕ → Option HeaderValue
map_get [] name = none
map_get ((k, v) ∷ m) name = if bytes_eq k name then some v else map_get m name

-- Puts a value at a name: the new value where there is none, else what `change` makes of the old one.
pub map_upsert : Headers → List ℕ → HeaderValue → (HeaderValue → HeaderValue) → Headers
map_upsert [] name new change = (name, new) ∷ []
map_upsert ((k, v) ∷ m) name new change =
    if bytes_eq k name then (k, change v) ∷ m else (k, v) ∷ map_upsert m name new change

pub map_remove : Headers → List ℕ → Headers
map_remove [] name = []
map_remove ((k, v) ∷ m) name = if bytes_eq k name then m else (k, v) ∷ map_remove m name

pub get : Headers → List ℕ → Option HeaderValue
unfolding normalize map_get
get m name = elim (normalize name) [ ok n ↦ map_get m n | err _ ↦ none ]

-- The new map, and the old value.
pub insert : Headers → List ℕ → List ℕ → Result (Headers × Option HeaderValue) InvalidInput
unfolding normalize value_from_bytes map_upsert map_get
insert m name value = normalize name >>= λ n.
    value_from_bytes value >>= λ v. ok (map_upsert m n v (λ _. v), map_get m n)

pub append : Headers → List ℕ → List ℕ → Result Headers InvalidInput
unfolding normalize value_from_bytes map_upsert append_value
append m name value = normalize name >>= λ n.
    value_from_bytes value >>= λ v. ok (map_upsert m n v (λ old. append_value old v))

-- The new map, and the removed value.
pub remove : Headers → List ℕ → Headers × Option HeaderValue
unfolding normalize map_remove map_get
remove m name = elim (normalize name) [ ok n ↦ (map_remove m n, map_get m n) | err _ ↦ (m, none) ]

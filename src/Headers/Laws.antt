-- ===== src/Headers/Laws.antt =====
-- What the map of headers holds after each operation.
use commonlibrary_rust_ylong.Common.{
  ℕ, ◌≡◌, refl, sym, ◌∙◌, Option, none, some, inl, inr, List, [], ◌∷◌, ◌++◌, false, Bool-cases,
  if◌then◌else◌, arith,
}
use commonlibrary_rust_ylong.Common.Result.{ok, err}
use commonlibrary_rust_ylong.Common.Text.{bytes_eq, bytes_eq_iff}
use commonlibrary_rust_ylong.Headers.{
  InvalidInput, Headers, HeaderValue, normalize, value_from_bytes, append_value, map_get,
  map_upsert, map_remove, get, insert, append, remove,
}

map_get-map_upsert :
    (m : Headers) (n o : List ℕ) (new : HeaderValue) (change : HeaderValue → HeaderValue)
    → map_get (map_upsert m n new change) o ≡ (
        if bytes_eq n o
        then some (elim (map_get m n) [ none ↦ new | some old ↦ change old ])
        else map_get m o)
unfolding map_get map_upsert
map_get-map_upsert [] n o new change = refl
map_get-map_upsert ((k, v) ∷ m) n o new change = ground (
  arith,
  map_get-map_upsert m n o new change,
  bytes_eq_iff k n,
  bytes_eq_iff k o,
  bytes_eq_iff n o,
)

-- Every name stands once in the map.
abbrev pub IsUnique : Headers → Type 0
IsUnique [] = Unit
IsUnique ((k, v) ∷ m) = (map_get m k ≡ none) × IsUnique m

map_upsert-IsUnique :
    (m : Headers) (n : List ℕ) (new : HeaderValue) (change : HeaderValue → HeaderValue)
    → IsUnique m
    → IsUnique (map_upsert m n new change)
unfolding map_upsert
map_upsert-IsUnique [] n new change u = (unfold map_get in refl, tt)
map_upsert-IsUnique ((k, v) ∷ m) n new change (fresh, u) = elim (Bool-cases (bytes_eq k n)) [
  | inl same ↦ rw same (fresh, u)
  | inr ne ↦ rw ne (
    ground (arith, map_get-map_upsert m n k new change, bytes_eq_iff n k, bytes_eq_iff k n),
    map_upsert-IsUnique m n new change u,
  )
]

map_get-map_remove :
    (m : Headers) (n o : List ℕ)
    → IsUnique m
    → map_get (map_remove m n) o ≡ (if bytes_eq n o then none else map_get m o)
unfolding map_get map_remove
map_get-map_remove [] n o u = ground arith
map_get-map_remove ((k, v) ∷ m) n o (fresh, u) =
    ground (arith, map_get-map_remove m n o u, bytes_eq_iff k n, bytes_eq_iff k o, bytes_eq_iff n o)

map_remove-IsUnique : (m : Headers) (n : List ℕ) → IsUnique m → IsUnique (map_remove m n)
unfolding map_remove
map_remove-IsUnique [] n u = tt
map_remove-IsUnique ((k, v) ∷ m) n (fresh, u) = elim (Bool-cases (bytes_eq k n)) [
  | inl same ↦ rw same u
  | inr ne ↦ rw ne (ground (arith, map_get-map_remove m n k u), map_remove-IsUnique m n u)
]

-- What a name has after `append` of a value: its old values before the new one, as sensitive as they were.
abbrev pub appended : Option HeaderValue → List ℕ → HeaderValue
appended none value = record { inner = value ∷ []; is_sensitive = false }
appended (some old) value = record {
  inner = old.inner ++ (value ∷ []);
  is_sensitive = old.is_sensitive;
}

value_from_bytes_lem :
    (value : List ℕ) (v : HeaderValue)
    → value_from_bytes value ≡ ok v
    → v ≡ record { inner = value ∷ []; is_sensitive = false }
unfolding value_from_bytes
value_from_bytes_lem value v h = ground arith

appended_elim :
    (o : Option HeaderValue) (value : List ℕ)
    → (elim o [
      | none ↦ record { inner = value ∷ []; is_sensitive = false }
      | some old ↦ append_value old (record { inner = value ∷ []; is_sensitive = false })
    ])
      ≡ appended o value
unfolding append_value
appended_elim none value = refl
appended_elim (some old) value = refl

inserted_elim :
    (o : Option HeaderValue) (v : HeaderValue) → (elim o [ none ↦ v | some old ↦ v ]) ≡ v
inserted_elim none v = refl
inserted_elim (some old) v = refl

get_normal : (m : Headers) (name n : List ℕ) → normalize name ≡ ok n → get m name ≡ map_get m n
unfolding get
get_normal m name n e = rw (e, get)

remove_normal :
    (m : Headers) (name n : List ℕ)
    → normalize name ≡ ok n
    → remove m name ≡ (map_remove m n, map_get m n)
unfolding remove
remove_normal m name n e = rw (e, remove)

-- With a good name and a good value `append` succeeds. Afterwards any good name has, if its normal form
-- is the same, its old values with the new one behind them, as sensitive as they were, or the new one
-- alone, which is not sensitive; and else what it had.
pub get-append :
    (m : Headers) (name value n other o : List ℕ) (v : HeaderValue)
    → normalize name ≡ ok n
    → value_from_bytes value ≡ ok v
    → normalize other ≡ ok o
    → (m' : Headers) × (append m name value ≡ ok m')
      × (get m' other ≡ (if bytes_eq n o then some (appended (map_get m n) value) else get m other))
unfolding append
get-append m name value n other o v hn hv ho =
    let w : HeaderValue = record { inner = value ∷ []; is_sensitive = false } in
    (
      map_upsert m n w (λ old. append_value old w),
      rw (hn, hv, value_from_bytes_lem value v hv),
      rw (get_normal _ other o ho, get_normal m other o ho)
          (map_get-map_upsert m n o w (λ old. append_value old w)
            ∙ rw (appended_elim (map_get m n) value)),
    )

-- With a good name and a good value `insert` succeeds and gives the old value back. Afterwards any good
-- name has the new value if its normal form is the same, and else what it had.
pub get-insert :
    (m : Headers) (name value n other o : List ℕ) (v : HeaderValue)
    → normalize name ≡ ok n
    → value_from_bytes value ≡ ok v
    → normalize other ≡ ok o
    → (m' : Headers) × (insert m name value ≡ ok (m', get m name))
      × (get m' other ≡ (if bytes_eq n o then some v else get m other))
unfolding insert
get-insert m name value n other o v hn hv ho = (
  map_upsert m n v (λ _. v),
  rw (get_normal m name n hn, hn, hv),
  rw (get_normal _ other o ho, get_normal m other o ho)
      (map_get-map_upsert m n o v (λ _. v) ∙ rw (inserted_elim (map_get m n) v)),
)

-- From a map in which every name stands once, removing a good name gives back what it had. Afterwards
-- every name stands once, and any good name has nothing if its normal form is the same, and else what
-- it had.
pub get-remove :
    (m : Headers) (name n other o : List ℕ)
    → IsUnique m
    → normalize name ≡ ok n
    → normalize other ≡ ok o
    → ((remove m name).1 ≡ get m name)
      × IsUnique (remove m name).0
      × (get (remove m name).0 other ≡ (if bytes_eq n o then none else get m other))
get-remove m name n other o u hn ho = rw (remove_normal m name n hn) (
  sym (get_normal m name n hn),
  map_remove-IsUnique m n u,
  rw (get_normal _ other o ho, get_normal m other o ho) (map_get-map_remove m n o u),
)

pub append_bad_name :
    (m : Headers) (name value : List ℕ) (e : InvalidInput)
    → normalize name ≡ err e
    → append m name value ≡ err e
unfolding append
append_bad_name m name value e h = rw (h, append)

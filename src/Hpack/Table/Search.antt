-- ===== src/Hpack/Table/Search.antt =====
-- `TableSearcher::index`: what the encoder is told, in the words of `search_header_name` and
-- `search_header`, by which a decoder reads an index.
use mathlib.Core.Path.{subst}
use commonlibrary_rust_ylong.Common.{
  ℕ, ◌+◌, ◌-◌, ◌≤◌, ◌≡◌, ◌≢◌, ◌⊎◌, inl, inr, refl, ◌∙◌, Option, none, some, List, true, false, leb,
  get_elem?, arith,
}
use commonlibrary_rust_ylong.Hpack.Table.Header.{Header, TableIndex, header_at, name_at}
use commonlibrary_rust_ylong.Hpack.Table.StaticIndex.{static_index}
use commonlibrary_rust_ylong.Hpack.Table.StaticIndex.Sound.{StaticNames, static_index-StaticNames}
use commonlibrary_rust_ylong.Hpack.Table.Dynamic.{
  DynamicTable, header, index, search_header_name, search_header, choose_index, search_index,
}
use commonlibrary_rust_ylong.Hpack.Table.Dynamic.Search.{Names, index-Names, entry}
use commonlibrary_rust_ylong.Hpack.Table.Static

-- What a decoder with the same table reads at the index that a search for `h` and `v` gave.
abbrev pub Reads : DynamicTable → Header → List ℕ → Option TableIndex → Type 0
Reads t h v none = Unit
Reads t h v (some (header_at i)) =
    (w : List ℕ) × (search_header t i ≡ entry h w)
    × ((w ≡ v) ⊎ ((w ≢ v) × (static_index h v ≡ none)))
Reads t h v (some (name_at i)) = search_header_name t i ≡ some h

dynamic_header :
    (t : DynamicTable) (n k : ℕ) → n ≡ 0 + k → search_header t (n + 62) ≡ get_elem? t.queue k
unfolding search_header header
dynamic_header t n k e =
    let past : leb (n + 62) 61 ≡ false = ground arith in
    let shift : n + 62 - 62 ≡ k = omega arith in rw (past, shift)

static_header :
    (t : DynamicTable) (i : ℕ)
    → i ≤ 61
    → (search_header t i ≡ Static.header i) × (search_header_name t i ≡ Static.header_name i)
unfolding search_header search_header_name
static_header t i h = let low : leb i 61 ≡ true = ground arith in (rw low, rw low)

choose_index-Reads :
    (t : DynamicTable) (h : Header) (v : List ℕ) (s d : Option TableIndex)
    → static_index h v ≡ s
    → StaticNames h v s
    → Names 0 t.queue h v d
    → Reads t h v (choose_index s d)
unfolding choose_index
choose_index-Reads t h v (some (header_at i)) d e (low, at) n =
    (v, (static_header t i low).0 ∙ at, inl refl)
choose_index-Reads t h v none (some (header_at i)) e s (k, ik, at) =
    (v, dynamic_header t i k ik ∙ at, inl refl)
choose_index-Reads t h v (some (name_at j)) (some (header_at i)) e s (k, ik, at) =
    (v, dynamic_header t i k ik ∙ at, inl refl)
choose_index-Reads t h v (some (name_at i)) none e (low, at) n = (static_header t i low).1 ∙ at
choose_index-Reads t h v (some (name_at i)) (some (name_at j)) e (low, at) n =
    (static_header t i low).1 ∙ at
choose_index-Reads t h v none (some (name_at i)) e s (k, w, ik, at, ne) =
    (w, dynamic_header t i k ik ∙ at, inr (ne, e))
choose_index-Reads t h v none none e s n = tt

-- A name's index that a search gives stands for the name. A header's index stands for the name with a
-- value, which is the value that was looked up, or another one where the static search gives nothing.
pub search_index-Reads :
    (t : DynamicTable) (h : Header) (v : List ℕ) → Reads t h v (search_index t h v)
unfolding search_index
search_index-Reads t h v =
    choose_index-Reads t h v (static_index h v) (index t h v) refl (static_index-StaticNames h v)
      (index-Names t h v)

-- Where the static search gives nothing and the dynamic search gives only a name's index, the search in
-- both gives a header's index, at which a decoder reads the name with another value than was looked up.
pub search_index_other_value :
    (t : DynamicTable) (h : Header) (v : List ℕ) (n : ℕ)
    → static_index h v ≡ none
    → index t h v ≡ some (name_at n)
    → (search_index t h v ≡ some (header_at (n + 62)))
      × (w : List ℕ) × (search_header t (n + 62) ≡ some (h, w))
      × (w ≢ v)
unfolding search_index choose_index
search_index_other_value t h v n s d =
    let named : Names 0 t.queue h v (some (name_at n)) =
      subst (Names 0 t.queue h v) d (index-Names t h v) in
    (rw (s, d), named.1, dynamic_header t n named.0 named.2 ∙ named.3, named.4)

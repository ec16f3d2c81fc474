-- ===== src/Hpack/Table/Dynamic.antt =====
-- `DynamicTable` and `TableSearcher` of ylong_http/src/h2/hpack/table.rs.
-- The sizes are sums of lengths of texts in memory, which stay below 2 ^ 64.
pub mod Eviction
pub mod Search
use commonlibrary_rust_ylong.Common.{
  ℕ, zero, suc, ◌+◌, ◌-◌, Option, none, some, List, [], ◌∷◌, Bool, true, ltb, leb, ◌&&◌,
  if◌then◌else◌, length, get_elem?,
}
use commonlibrary_rust_ylong.Common.Text.{bytes_eq}
use commonlibrary_rust_ylong.Hpack.Table.Header.{
  Header, TableIndex, header_at, name_at, header_eq, entry_size,
}
use commonlibrary_rust_ylong.Hpack.Table.Static
use commonlibrary_rust_ylong.Hpack.Table.StaticIndex.{static_index}

-- The front of `queue` is the newest entry.
pub record DynamicTable : Type 0 where
  pub queue : List (Header × List ℕ)
  pub curr_size : ℕ
  pub max_size : ℕ

unfoldable pub with_max_size : ℕ → DynamicTable
with_max_size max_size = record { queue = []; curr_size = 0; max_size = max_size }

unfoldable pub header_name : DynamicTable → ℕ → Option Header
header_name t i = elim (get_elem? t.queue i) [ none ↦ none | some (h, v) ↦ some h ]

unfoldable pub header : DynamicTable → ℕ → Option (Header × List ℕ)
header t i = get_elem? t.queue i

-- `VecDeque::pop_back` of a queue that is not empty: the last entry, and the queue without it.
pop_back : Header × List ℕ → List (Header × List ℕ) → (Header × List ℕ) × List (Header × List ℕ)
pop_back x [] = (x, [])
pop_back x (y ∷ ys) = let (e, rest) = pop_back y ys in (e, x ∷ rest)

-- The loop of `fit_size`. Each round takes an entry out, so as many rounds as entries are enough.
pub fit_loop : ℕ → List (Header × List ℕ) → ℕ → ℕ → DynamicTable
unfolding pop_back
fit_loop fuel [] curr max_size = record { queue = []; curr_size = curr; max_size = max_size }
fit_loop zero (x ∷ xs) curr max_size = record {
  queue = x ∷ xs;
  curr_size = curr;
  max_size = max_size;
}
fit_loop (suc fuel) (x ∷ xs) curr max_size =
    let (e, rest) = pop_back x xs in
    let next = fit_loop fuel rest (curr - entry_size e) max_size in
    if ltb max_size curr
    then next
    else record { queue = x ∷ xs; curr_size = curr; max_size = max_size }

pub fit_size : DynamicTable → DynamicTable
unfolding fit_loop
fit_size t = fit_loop (length t.queue) t.queue t.curr_size t.max_size

pub update : DynamicTable → Header → List ℕ → DynamicTable
unfolding fit_size
update t h v =
    fit_size (record t { queue = (h, v) ∷ t.queue; curr_size = t.curr_size + entry_size (h, v) })

pub update_size : DynamicTable → ℕ → DynamicTable
unfolding fit_size
update_size t max_size = fit_size (record t { max_size = max_size })

-- The arms of the loop body of `index`, at the entry with number `n`.
abbrev pub note_name : Bool → ℕ → Option TableIndex → Option TableIndex
note_name true n none = some (name_at n)
note_name _ n found = found

pub index_loop :
    ℕ → Option TableIndex → List (Header × List ℕ) → Header → List ℕ → Option TableIndex
index_loop n found [] key value = found
index_loop n found ((h, v) ∷ rest) key value =
    let next = index_loop (suc n) (note_name (header_eq key h) n found) rest key value in
    if header_eq key h && bytes_eq value v then some (header_at n) else next

unfoldable pub index : DynamicTable → Header → List ℕ → Option TableIndex
unfolding index_loop
index t key value = index_loop 0 none t.queue key value

-- `TableSearcher`.
unfoldable pub search_header_name : DynamicTable → ℕ → Option Header
search_header_name t i = if leb i 61 then Static.header_name i else header_name t (i - 62)

unfoldable pub search_header : DynamicTable → ℕ → Option (Header × List ℕ)
search_header t i = if leb i 61 then Static.header i else header t (i - 62)

-- The arms of `TableSearcher::index`, in the source's order.
unfoldable pub choose_index : Option TableIndex → Option TableIndex → Option TableIndex
choose_index (some (header_at i)) d = some (header_at i)
choose_index s (some (header_at i)) = some (header_at (i + 62))
choose_index (some (name_at i)) d = some (name_at i)
choose_index s (some (name_at i)) = some (header_at (i + 62))
choose_index s d = none

unfoldable pub search_index : DynamicTable → Header → List ℕ → Option TableIndex
unfolding choose_index index
search_index t h v = choose_index (static_index h v) (index t h v)

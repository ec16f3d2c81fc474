-- ===== src/Hpack/Table/Dynamic/Eviction.antt =====
-- What the dynamic table keeps: the newest entries that fit together.
use commonlibrary_rust_ylong.Common.{
  ℕ, zero, suc, ◌+◌, ◌-◌, ◌≤◌, ◌<◌, ◌≡◌, refl, sym, ap, ◌∙◌, none, some, ◌⊎◌, inl, inr, List, [],
  ◌∷◌, ◌++◌, true, false, Bool-cases, leb, ltb, if◌then◌else◌, length, length-append, get_elem?,
  arith,
}
use commonlibrary_rust_ylong.Hpack.Table.Header.{Header, entry_size}
use commonlibrary_rust_ylong.Hpack.Table.Dynamic.{
  DynamicTable, with_max_size, pop_back, fit_loop, fit_size, update, update_size, search_header,
  header,
}

abbrev Entry : Type 0
Entry = Header × List ℕ

abbrev pub total : List Entry → ℕ
total [] = 0
total (x ∷ xs) = entry_size x + total xs

-- The entries from the front on, for as long as they fit together into `room`.
abbrev pub fitting : ℕ → List Entry → List Entry
fitting room [] = []
fitting room (x ∷ xs) = if leb (entry_size x) room then x ∷ fitting (room - entry_size x) xs else []

pub record IsValid (t : DynamicTable) : Type 0 where
  pub counted : t.curr_size ≡ total t.queue
  pub bounded : t.curr_size ≤ t.max_size

total-fitting : (room : ℕ) (q : List Entry) → total (fitting room q) ≤ room
total-fitting room [] = omega arith
total-fitting room (x ∷ xs) = ground (arith, total-fitting (room - entry_size x) xs)

fitting_all : (room : ℕ) (q : List Entry) → total q ≤ room → fitting room q ≡ q
fitting_all room [] h = refl
fitting_all room (x ∷ xs) h = ground (arith, fitting_all (room - entry_size x) xs)

fitting-last :
    (room : ℕ) (q : List Entry) (e : Entry)
    → room < total (q ++ e ∷ [])
    → fitting room (q ++ e ∷ []) ≡ fitting room q
fitting-last room [] e h = ground arith
fitting-last room (x ∷ xs) e h = ground (arith, fitting-last (room - entry_size x) xs e)

total-append : (p q : List Entry) → total (p ++ q) ≡ total p + total q
total-append [] q = omega arith
total-append (x ∷ xs) q = omega (arith, total-append xs q)

pop_back_lem : (x : Entry) (xs : List Entry) → x ∷ xs ≡ (pop_back x xs).1 ++ (pop_back x xs).0 ∷ []
unfolding pop_back
pop_back_lem x [] = refl
pop_back_lem x (y ∷ ys) = ap (λ t. x ∷ t) (pop_back_lem y ys)

abbrev kept : ℕ → List Entry → DynamicTable
kept max_size q = record {
  queue = fitting max_size q;
  curr_size = total (fitting max_size q);
  max_size = max_size;
}

-- One round that takes the oldest entry `e` out.
drop_oldest :
    (fuel : ℕ) (q rest : List Entry) (e : Entry) (curr max_size : ℕ)
    → q ≡ rest ++ e ∷ []
    → curr ≡ total q
    → max_size < curr
    → fit_loop fuel rest (curr - entry_size e) max_size ≡ kept max_size rest
    → fit_loop fuel rest (curr - entry_size e) max_size ≡ kept max_size q
drop_oldest fuel q rest e curr max_size split count over ih =
    let small : max_size < total (rest ++ e ∷ []) = rw (← split) (omega arith) in
    ih
    ∙ ap (λ r. record { queue = r; curr_size = total r; max_size = max_size })
        (sym (ap (fitting max_size) split ∙ fitting-last max_size rest e small))

fit_loop-fitting :
    (fuel : ℕ) (q : List Entry) (curr max_size : ℕ)
    → curr ≡ total q
    → length q ≤ fuel
    → fit_loop fuel q curr max_size ≡ kept max_size q
unfolding fit_loop
fit_loop-fitting fuel [] curr max_size count enough = rw count
fit_loop-fitting zero (x ∷ xs) curr max_size count enough = absurd (omega arith)
fit_loop-fitting (suc fuel) (x ∷ xs) curr max_size count enough =
    let e = (pop_back x xs).0 in
    let rest = (pop_back x xs).1 in
    let split = pop_back_lem x xs in
    let sizes : curr ≡ total rest + (entry_size e + 0) =
      count ∙ ap total split ∙ total-append rest (e ∷ []) in
    let lengths = length-append rest (e ∷ []) in
    let size : suc (length xs) ≡ length (rest ++ e ∷ []) = ap length split in
    elim (Bool-cases (ltb max_size curr)) [
      | inl over ↦ rw over (
          drop_oldest fuel (x ∷ xs) rest e curr max_size split count (ground arith)
            (fit_loop-fitting fuel rest (curr - entry_size e) max_size (omega arith) (omega arith)))
      | inr fits ↦
          rw (fits, count)
            (let whole = fitting_all max_size (x ∷ xs) (ground arith) in
              ap (λ r. record { queue = r; curr_size = total r; max_size = max_size }) (sym whole))
    ]

fit_size-fitting :
    (t : DynamicTable) → t.curr_size ≡ total t.queue → fit_size t ≡ kept t.max_size t.queue
unfolding fit_size
fit_size-fitting t count =
    fit_loop-fitting (length t.queue) t.queue t.curr_size t.max_size count (omega arith)

-- After an insertion into a valid table its queue is the new entry before the old ones, cut to the
-- longest front part that fits into the maximum, the size is that of this queue, and the maximum stays.
pub update-fitting :
    (t : DynamicTable) (h : Header) (v : List ℕ)
    → IsValid t
    → update t h v ≡ record {
      queue = fitting t.max_size ((h, v) ∷ t.queue);
      curr_size = total (fitting t.max_size ((h, v) ∷ t.queue));
      max_size = t.max_size;
    }
unfolding update
update-fitting t h v ok =
    let added : DynamicTable = record t {
      queue = (h, v) ∷ t.queue;
      curr_size = t.curr_size + entry_size (h, v);
    } in
    fit_size-fitting added (omega arith)

-- After a change of the maximum of a valid table, the longest front part that fits the new one is left.
pub update_size-fitting :
    (t : DynamicTable) (n : ℕ)
    → IsValid t
    → update_size t n
      ≡ record { queue = fitting n t.queue; curr_size = total (fitting n t.queue); max_size = n }
unfolding update_size
update_size-fitting t n ok = fit_size-fitting _ ok.counted

-- A new table is valid, and insertions and changes of the maximum keep a table valid: `curr_size` is
-- the total size of the entries, and is at most `max_size`.
pub DynamicTable-IsValid :
    (t : DynamicTable) (h : Header) (v : List ℕ) (n : ℕ)
    → IsValid t
    → IsValid (with_max_size n) × IsValid (update t h v) × IsValid (update_size t n)
unfolding with_max_size
DynamicTable-IsValid t h v n ok = (
  record { counted = refl; bounded = omega arith },
  rw (update-fitting t h v ok)
      (record { counted = refl; bounded = total-fitting t.max_size ((h, v) ∷ t.queue) }),
  rw (update_size-fitting t n ok) (record { counted = refl; bounded = total-fitting n t.queue }),
)

get_elem?-fitting :
    (room : ℕ) (q : List Entry) (i : ℕ)
    → (get_elem? (fitting room q) i ≡ get_elem? q i) ⊎ (get_elem? (fitting room q) i ≡ none)
get_elem?-fitting room [] i = inl refl
get_elem?-fitting room (x ∷ xs) i = elim (Bool-cases (leb (entry_size x) room)) [
  | inl fits ↦ rw fits (later i (get_elem?-fitting (room - entry_size x) xs))
  | inr big ↦ rw big (inr refl)
]
  where
    later :
        (i : ℕ)
        → ((j : ℕ)
            → (get_elem? (fitting (room - entry_size x) xs) j ≡ get_elem? xs j)
              ⊎ (get_elem? (fitting (room - entry_size x) xs) j ≡ none))
        → (get_elem? (x ∷ fitting (room - entry_size x) xs) i ≡ get_elem? (x ∷ xs) i)
          ⊎ (get_elem? (x ∷ fitting (room - entry_size x) xs) i ≡ none)
    later zero ih = inl refl
    later (suc i) ih = ih i

search_header_dynamic :
    (t : DynamicTable) (k i : ℕ) → k ≡ 62 + i → search_header t k ≡ get_elem? t.queue i
unfolding search_header header
search_header_dynamic t k i e =
    let past : leb k 61 ≡ false = ground arith in
    let shift : k - 62 ≡ i = omega arith in rw (past, shift)

-- In a valid table, an entry that fits the table by itself has index 62 after its insertion, and every other index past
-- the static table names the entry that the index before it named, or, once that is evicted, nothing.
pub search_header-update :
    (t : DynamicTable) (h : Header) (v : List ℕ) (i : ℕ)
    → IsValid t
    → entry_size (h, v) ≤ t.max_size
    → (search_header (update t h v) 62 ≡ some (h, v))
      × ((search_header (update t h v) (63 + i) ≡ search_header t (62 + i))
          ⊎ (search_header (update t h v) (63 + i) ≡ none))
search_header-update t h v i ok fits =
    let test : leb (entry_size (h, v)) t.max_size ≡ true = ground arith in
    let room = t.max_size - entry_size (h, v) in
    let front : (update t h v).queue ≡ (h, v) ∷ fitting room t.queue =
      ap (λ (r : DynamicTable). r.queue) (update-fitting t h v ok) ∙ rw test in
    (
      search_header_dynamic (update t h v) 62 0 refl ∙ ap (λ q. get_elem? q 0) front,
      rw
          (
            search_header_dynamic (update t h v) (63 + i) (suc i) (omega arith),
            search_header_dynamic t (62 + i) i refl,
            front,
          )
          (get_elem?-fitting room t.queue i),
    )

-- ===== src/Hpack/Table/Dynamic/Search.antt =====
-- What the indices that a search returns stand for.
use mathlib.Core.Path.{subst}
use commonlibrary_rust_ylong.Common.{
  ℕ, suc, ◌+◌, ◌≡◌, ◌≢◌, refl, sym, ap, Option, none, some, ◌⊎◌, inl, inr, List, [], ◌∷◌, Bool,
  true, false, Bool-cases, ◌&&◌, get_elem?, arith,
}
use commonlibrary_rust_ylong.Common.Text.{bytes_eq, bytes_eq_iff}
use commonlibrary_rust_ylong.Hpack.Table.Header.{
  Header, TableIndex, header_at, name_at, header_eq, header_eq→eq,
}
use commonlibrary_rust_ylong.Hpack.Table.Dynamic.{DynamicTable, note_name, index_loop, index}

abbrev pub Entry : Type 0
Entry = Header × List ℕ

abbrev pub entry : Header → List ℕ → Option Entry
entry h v = some (h, v)

-- What a result of the dynamic search says about the queue `q`, whose first entry has number `n`.
abbrev pub Names : ℕ → List Entry → Header → List ℕ → Option TableIndex → Type 0
Names n q key value none = Unit
Names n q key value (some (header_at i)) = (k : ℕ) × (i ≡ n + k) × (get_elem? q k ≡ entry key value)
Names n q key value (some (name_at i)) =
    (k : ℕ) × (w : List ℕ) × (i ≡ n + k) × (get_elem? q k ≡ entry key w) × (w ≢ value)

-- One entry further from the front.
Names-cons :
    (n : ℕ) (x : Entry) (q : List Entry) (key : Header) (value : List ℕ) (r : Option TableIndex)
    → Names (suc n) q key value r
    → Names n (x ∷ q) key value r
Names-cons n x q key value none h = tt
Names-cons n x q key value (some (header_at i)) (k, e, at) = (suc k, omega arith, at)
Names-cons n x q key value (some (name_at i)) (k, w, e, at, ne) = (suc k, w, omega arith, at, ne)

note_name_kept : (b : Bool) (n j : ℕ) → note_name b n (some (name_at j)) ≡ some (name_at j)
note_name_kept true n j = refl
note_name_kept false n j = refl

whole_match :
    (key h : Header) (value v : List ℕ)
    → (header_eq key h && bytes_eq value v) ≡ true
    → entry h v ≡ entry key value
whole_match key h value v e =
    let name : h ≡ key = sym (header_eq→eq key h (ground arith)) in
    let same : v ≡ value = sym ((bytes_eq_iff value v).0 (ground arith)) in cc

name_match :
    (key h : Header) (value v : List ℕ)
    → (header_eq key h && bytes_eq value v) ≡ false
    → header_eq key h ≡ true
    → (entry h v ≡ entry key v) × (v ≢ value)
name_match key h value v e name = (
  ap (λ k. entry k v) (sym (header_eq→eq key h name)),
  λ same. ground (arith, bytes_eq_iff value v, sym same),
)

-- Once a name is noted, the loop keeps it or finds a whole match.
abbrev Keeps : ℕ → ℕ → List Entry → Header → List ℕ → Option TableIndex → Type 0
Keeps n j q key value r =
    (r ≡ some (name_at j))
    ⊎ ((i : ℕ) × (k : ℕ) × (r ≡ some (header_at i))
        × (i ≡ n + k)
        × (get_elem? q k ≡ entry key value))

index_loop-Keeps :
    (n j : ℕ) (q : List Entry) (key : Header) (value : List ℕ)
    → Keeps n j q key value (index_loop n (some (name_at j)) q key value)
unfolding index_loop
index_loop-Keeps n j [] key value = inl refl
index_loop-Keeps n j ((h, v) ∷ q) key value =
    elim (Bool-cases (header_eq key h && bytes_eq value v)) [
      | inl whole ↦ rw whole (inr (n, 0, refl, omega arith, whole_match key h value v whole))
      | inr part ↦
          rw (part, note_name_kept)
            (elim (index_loop-Keeps (suc n) j q key value) [
              | inl kept ↦ inl kept
              | inr (i, k, e, at, found) ↦ inr (i, suc k, e, omega arith, found)
            ])
    ]

Keeps→Names :
    (n : ℕ) (h : Header) (v : List ℕ) (q : List Entry) (key : Header) (value : List ℕ)
    (r : Option TableIndex)
    → (entry h v ≡ entry key v) × (v ≢ value)
    → Keeps (suc n) n q key value r
    → Names n ((h, v) ∷ q) key value r
Keeps→Names n h v q key value r (same, ne) (inl e) =
    subst (Names n ((h, v) ∷ q) key value) (sym e) (0, v, omega arith, same, ne)
Keeps→Names n h v q key value r first (inr (i, k, e, at, found)) =
    subst (Names n ((h, v) ∷ q) key value) (sym e) (suc k, omega arith, found)

index_loop-Names :
    (n : ℕ) (q : List Entry) (key : Header) (value : List ℕ)
    → Names n q key value (index_loop n none q key value)
unfolding index_loop
index_loop-Names n [] key value = tt
index_loop-Names n ((h, v) ∷ q) key value =
    elim (Bool-cases (header_eq key h && bytes_eq value v)) [
      | inl whole ↦ rw whole (0, omega arith, whole_match key h value v whole)
      | inr part ↦ elim (Bool-cases (header_eq key h)) [
        | inl name ↦
            rw (part, name)
              (Keeps→Names n h v q key value _ (name_match key h value v part name)
                (index_loop-Keeps (suc n) n q key value))
        | inr another ↦
            rw (part, another)
              (Names-cons n (h, v) q key value _ (index_loop-Names (suc n) q key value))
      ]
    ]

-- What `DynamicTable::index` returns is the number of an entry with the whole header, or, as a name's
-- index, the number of an entry with this name and another value.
pub index-Names :
    (t : DynamicTable) (key : Header) (value : List ℕ)
    → Names 0 t.queue key value (index t key value)
unfolding index
index-Names t key value = index_loop-Names 0 t.queue key value

-- ===== src/Hpack/Decoder/Total.antt =====
-- Decoding ends, and keeps the table valid and the header list within its limit.
use commonlibrary_rust_ylong.Common.{
  ℕ, zero, suc, ◌+◌, ◌≤◌, ◌<◌, ◌≡◌, refl, Option, none, some, inl, inr, List, [], ◌∷◌, Bool-cases,
  ltb, length, arith,
}
use commonlibrary_rust_ylong.H2.Error.{connection_error, compression_error}
use commonlibrary_rust_ylong.H2.Parts
use commonlibrary_rust_ylong.H2.Parts.{Parts}
use commonlibrary_rust_ylong.Hpack.Table.Header.{Header, other, len}
use commonlibrary_rust_ylong.Hpack.Table.Dynamic
use commonlibrary_rust_ylong.Hpack.Table.Dynamic.Eviction.{IsValid, DynamicTable-IsValid}
use commonlibrary_rust_ylong.Hpack.Repr.Prefix.{Name, Representation}
use commonlibrary_rust_ylong.Hpack.Repr.Decoder.{
  DecResult, decoded, need_more, error, ReprDecodeState, decode_state,
}
use commonlibrary_rust_ylong.Hpack.Repr.Decoder.Shrinks.{Leaves}
use commonlibrary_rust_ylong.Hpack.Decoder.Pieces.{pending, round-Leaves}
use commonlibrary_rust_ylong.H2.Fate.{Fate, returned, failed, panicked, out_of_fuel, continue}
use commonlibrary_rust_ylong.Hpack.Decoder.{
  Updater, Exec, or_compression_error, header_line_length, check_header_list_size, update_table,
  update_parts, get_header_by_name_and_value, update_indexed, update_literal_with_indexing,
  update_literal_without_indexing, update, start, after_round, decode_loop, HpackDecoder, save,
  enough_fuel, decode,
}

-- The table is valid, and the lines so far are within the limit.
pub record IsGood (u : Updater) : Type 0 where
  pub table : IsValid u.table
  pub size : u.header_size ≤ u.header_list_size

-- A call that ends: where it returns the state is good, and where it fails its table is valid.
abbrev pub Ends : {A : Type 0} → Fate A × Updater → Type 0
Ends (returned a, u) = IsGood u
Ends (failed e, u) = IsValid u.table
Ends (panicked, u) = IsValid u.table
Ends (out_of_fuel, u) = ⊥

continue-Ends :
    {A B : Type 0} (m : Fate A × Updater) (f : A → Exec B)
    → Ends m
    → ((a : A) (u : Updater) → IsGood u → Ends (f a u))
    → Ends (continue m f)
continue-Ends (returned a, u) f h k = k a u h
continue-Ends (failed e, u) f h k = h
continue-Ends (panicked, u) f h k = h
continue-Ends (out_of_fuel, u) f h k = h

or_compression_error-Ends :
    {A : Type 0} (f : Updater → Option A) (u : Updater) → IsGood u → Ends (or_compression_error f u)
or_compression_error-Ends {A} f u g = go (f u)
  where
    go :
        (o : Option A)
        → Ends (elim o as (λ _. Fate A × Updater) [
          | none ↦ (failed (connection_error compression_error), u)
          | some a ↦ (returned a, u)
        ])
    go none = g.table
    go (some a) = g

check-Ends :
    (h : Header) (v : List ℕ) (u : Updater) → IsGood u → Ends (check_header_list_size h v u)
unfolding check_header_list_size
check-Ends h v u g =
    let size = u.header_size + header_line_length (len h) (length v) in
    elim (Bool-cases (ltb u.header_list_size size)) [
      | inl over ↦ rw over g.table
      | inr fits ↦ rw fits (record { table = g.table; size = ground arith })
    ]

update_table-Ends : (h : Header) (v : List ℕ) (u : Updater) → IsGood u → Ends (update_table h v u)
unfolding update_table
update_table-Ends h v u g = record {
  table = (DynamicTable-IsValid u.table h v 0 g.table).1;
  size = g.size;
}

update_parts-Ends : (h : Header) (v : List ℕ) (u : Updater) → IsGood u → Ends (update_parts h v u)
unfolding update_parts
update_parts-Ends h v u g = go (Parts.update u.parts h v)
  where
    go :
        (o : Option Parts)
        → Ends (elim o as (λ _. Fate (Unit {0}) × Updater) [
          | none ↦ (panicked, u)
          | some parts ↦ (returned tt, record u { parts = parts })
        ])
    go none = g.table
    go (some p) = record { table = g.table; size = g.size }

get_header-Ends :
    (n : Name) (v : List ℕ) (u : Updater) → IsGood u → Ends (get_header_by_name_and_value n v u)
unfolding get_header_by_name_and_value
get_header-Ends (Name.index i) v u g =
    continue-Ends (or_compression_error (λ u'. Dynamic.search_header_name u'.table i) u) _
      (or_compression_error-Ends (λ u'. Dynamic.search_header_name u'.table i) u g) (λ a u' h. h)
get_header-Ends (Name.literal octets) v u g = g

without_indexing-Ends :
    (n : Name) (v : List ℕ) (u : Updater) → IsGood u → Ends (update_literal_without_indexing n v u)
unfolding update_literal_without_indexing
without_indexing-Ends n v u g =
    continue-Ends (get_header_by_name_and_value n v u) _ (get_header-Ends n v u g) λ (h, w) u1 g1.
      continue-Ends (check_header_list_size h w u1) _ (check-Ends h w u1 g1)
        (λ _ u2 g2. update_parts-Ends h w u2 g2)

with_indexing-Ends :
    (n : Name) (v : List ℕ) (u : Updater) → IsGood u → Ends (update_literal_with_indexing n v u)
unfolding update_literal_with_indexing
with_indexing-Ends n v u g =
    continue-Ends (get_header_by_name_and_value n v u) _ (get_header-Ends n v u g) λ (h, w) u1 g1.
      continue-Ends (check_header_list_size h w u1) _ (check-Ends h w u1 g1) λ _ u2 g2.
        continue-Ends (update_table h w u2) _ (update_table-Ends h w u2 g2)
          (λ _ u3 g3. update_parts-Ends h w u3 g3)

indexed-Ends : (i : ℕ) (u : Updater) → IsGood u → Ends (update_indexed i u)
unfolding update_indexed
indexed-Ends i u g =
    continue-Ends (or_compression_error (λ u'. Dynamic.search_header u'.table i) u) _
      (or_compression_error-Ends (λ u'. Dynamic.search_header u'.table i) u g)
      λ (h, w) u1 g1.
        continue-Ends (check_header_list_size h w u1) _ (check-Ends h w u1 g1)
          (λ _ u2 g2. update_parts-Ends h w u2 g2)

update-Ends : (r : Representation) (u : Updater) → IsGood u → Ends (update r u)
unfolding update
update-Ends (Representation.indexed i) u g = indexed-Ends i u g
update-Ends (Representation.literal_with_indexing n v) u g = with_indexing-Ends n v u g
update-Ends (Representation.literal_without_indexing n v) u g = without_indexing-Ends n v u g
update-Ends (Representation.literal_never_indexed n v) u g = without_indexing-Ends n v u g
update-Ends (Representation.size_update n) u g = record {
  table = (DynamicTable-IsValid u.table (other []) [] n g.table).2;
  size = g.size;
}

loop-Ends :
    (f : ℕ) (buf : List ℕ) (st : Option ReprDecodeState) (u : Updater)
    → length buf + pending st < f
    → IsGood u
    → Ends (decode_loop f buf st u)
unfolding decode_loop
loop-Ends f [] st u h g = g
loop-Ends zero (b ∷ buf) st u h g = absurd (omega arith)
loop-Ends (suc f) (b ∷ buf) st u h g =
    go (λ rest u' le g'. loop-Ends f rest none u' (omega arith) g')
      (decode_state (start st) (b ∷ buf)) (round-Leaves st b buf)
  where
    go :
        ((rest : List ℕ) (u' : Updater)
          → length rest ≤ length buf + pending st
          → IsGood u'
          → Ends (decode_loop f rest none u'))
        → (r : DecResult Representation ReprDecodeState) → Leaves (length buf + pending st) r
        → Ends (after_round (λ rest. decode_loop f rest none) r u)
    go ih (decoded repr rest) le =
        continue-Ends (update repr u) _ (update-Ends repr u g) (λ _ u' g'. ih rest u' le g')
    go ih (need_more s) le = g
    go ih (error e) le = g.table

-- What a call of `decode` leaves.
abbrev pub LeavesDecoder : Fate (Unit {0}) × HpackDecoder → Type 0
LeavesDecoder (returned tt, d) = IsGood d.core
LeavesDecoder (failed e, d) = IsValid d.core.table × (d.holder ≡ none)
LeavesDecoder (panicked, d) = IsValid d.core.table × (d.holder ≡ none)
LeavesDecoder (out_of_fuel, d) = ⊥

-- From a valid table and lines within the limit, decoding any bytes ends. Where it returns, the table is
-- valid and the lines are within the limit again. Where it fails or panics, the table is valid and no
-- state is saved.
pub decode-ends : (d : HpackDecoder) (buf : List ℕ) → IsGood d.core → LeavesDecoder (decode d buf)
unfolding decode
decode-ends d buf g =
    go (decode_loop (enough_fuel buf) buf d.holder d.core)
      (loop-Ends (enough_fuel buf) buf d.holder d.core (room d.holder) g)
  where
    room : (st : Option ReprDecodeState) → length buf + pending st < enough_fuel buf
    room none = omega arith
    room (some s) = omega arith

    go : (m : Fate (Option ReprDecodeState) × Updater) → Ends m → LeavesDecoder (save m)
    go (returned st, u) h = h
    go (failed e, u) h = (h, refl)
    go (panicked, u) h = (h, refl)
    go (out_of_fuel, u) h = h

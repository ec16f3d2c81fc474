-- ===== src/Hpack/Decoder.antt =====
-- ylong_http/src/h2/hpack/decoder.rs: header blocks in pieces, with the table that they change.
-- The sum of the lines' lengths, texts in memory, stays below 2 ^ 64.
pub mod Pieces
pub mod Total
pub mod Panic
use commonlibrary_rust_ylong.Common.{
  ℕ, zero, suc, ◌+◌, Option, none, some, List, [], ◌∷◌, ltb, if◌then◌else◌, length,
}
use commonlibrary_rust_ylong.H2.Error.{H2Error, connection_error, compression_error, connect_error}
use commonlibrary_rust_ylong.H2.Fate.{Fate, returned, failed, panicked, out_of_fuel, continue}
use commonlibrary_rust_ylong.H2.Parts
use commonlibrary_rust_ylong.H2.Parts.{Parts}
use commonlibrary_rust_ylong.Hpack.Table.Header.{Header, other, len}
use commonlibrary_rust_ylong.Hpack.Table.Dynamic
use commonlibrary_rust_ylong.Hpack.Table.Dynamic.{DynamicTable}
use commonlibrary_rust_ylong.Hpack.Repr.Prefix.{Name, Representation}
use commonlibrary_rust_ylong.Hpack.Repr.Decoder.{
  DecResult, ReprDecodeState, at_index, at_first_byte, decoded, need_more, error, decode_state,
}

-- What `Updater` borrows of the decoder: all its fields but `holder`. `parts` and `header_size` are
-- the fields of `lines`.
pub record Updater : Type 0 where
  pub header_list_size : ℕ
  pub table : DynamicTable
  pub parts : Parts
  pub header_size : ℕ

abbrev pub Exec : Type 0 → Type 0
Exec A = Updater → Fate A × Updater

infixl 5 ◌>>=◌ ◌>>◌
abbrev pub ◌>>=◌ : {A B : Type 0} → Exec A → (A → Exec B) → Exec B
◌>>=◌ m f u = continue (m u) f

abbrev pub ◌>>◌ : {A B : Type 0} → Exec A → Exec B → Exec B
m >> k = m >>= λ _. k

abbrev pub pure : {A : Type 0} → A → Exec A
pure a u = (returned a, u)

-- `ok_or(CompressionError)?` on what the tables give.
abbrev pub or_compression_error : {A : Type 0} → (Updater → Option A) → Exec A
or_compression_error f u = elim (f u) [
  | none ↦ (failed (connection_error compression_error), u)
  | some a ↦ (returned a, u)
]

unfoldable pub header_line_length : ℕ → ℕ → ℕ
header_line_length key_size value_size = key_size + value_size + 32

-- The size grows before the test, and stays grown where that fails.
pub check_header_list_size : Header → List ℕ → Exec (Unit {0})
unfolding header_line_length
check_header_list_size h v u =
    let size = u.header_size + header_line_length (len h) (length v) in
    let u' = record u { header_size = size } in
    if ltb u.header_list_size size
    then (failed (connection_error connect_error), u')
    else (returned tt, u')

-- `self.table.update`.
update_table : Header → List ℕ → Exec (Unit {0})
update_table h v u = (returned tt, record u { table = Dynamic.update u.table h v })

-- `self.lines.parts.update`.
update_parts : Header → List ℕ → Exec (Unit {0})
update_parts h v u = elim (Parts.update u.parts h v) [
  | none ↦ (panicked, u)
  | some parts ↦ (returned tt, record u { parts = parts })
]

get_header_by_name_and_value : Name → List ℕ → Exec (Header × List ℕ)
get_header_by_name_and_value (Name.index i) value = do
  h ← or_compression_error (λ u. Dynamic.search_header_name u.table i)
  pure (h, value)
get_header_by_name_and_value (Name.literal octets) value = pure (other octets, value)

update_indexed : ℕ → Exec (Unit {0})
unfolding check_header_list_size update_parts
update_indexed i = do
  (h, v) ← or_compression_error (λ u. Dynamic.search_header u.table i)
  check_header_list_size h v
  update_parts h v

update_literal_with_indexing : Name → List ℕ → Exec (Unit {0})
unfolding check_header_list_size update_parts update_table get_header_by_name_and_value
update_literal_with_indexing name value = do
  (h, v) ← get_header_by_name_and_value name value
  check_header_list_size h v
  update_table h v
  update_parts h v

-- `update_literal_never_indexing` too, which calls this.
update_literal_without_indexing : Name → List ℕ → Exec (Unit {0})
unfolding check_header_list_size update_parts get_header_by_name_and_value
update_literal_without_indexing name value = do
  (h, v) ← get_header_by_name_and_value name value
  check_header_list_size h v
  update_parts h v

-- `Updater::update`.
pub update : Representation → Exec (Unit {0})
unfolding update_indexed update_literal_with_indexing update_literal_without_indexing
update (Representation.indexed i) = update_indexed i
update (Representation.literal_with_indexing n v) = update_literal_with_indexing n v
update (Representation.literal_without_indexing n v) = update_literal_without_indexing n v
update (Representation.literal_never_indexed n v) = update_literal_without_indexing n v
update (Representation.size_update max_size) =
    λ u. (returned tt, record u { table = Dynamic.update_size u.table max_size })

-- `unwrap_or_else`: without a saved state a representation begins.
abbrev pub start : Option ReprDecodeState → ReprDecodeState
start none = at_index at_first_byte
start (some s) = s

-- What a round does with the result of `ReprDecoder::decode`; `next` is the rest of the loop.
abbrev pub after_round :
    (List ℕ → Exec (Option ReprDecodeState))
    → DecResult Representation ReprDecodeState
    → Exec (Option ReprDecodeState)
after_round next (decoded repr rest) u = continue (update repr u) (λ _ u'. next rest u')
after_round next (need_more s) u = (returned (some s), u)
after_round next (error e) u = (failed e, u)

-- The loop of `HpackDecoder::decode`, with the state of its `ReprDecoder`; it returns the state to save.
pub decode_loop : ℕ → List ℕ → Option ReprDecodeState → Exec (Option ReprDecodeState)
decode_loop fuel [] state u = (returned state, u)
decode_loop zero (b ∷ buf) state u = (out_of_fuel, u)
decode_loop (suc fuel) (b ∷ buf) state u =
    after_round (λ rest. decode_loop fuel rest none) (decode_state (start state) (b ∷ buf)) u

pub record HpackDecoder : Type 0 where
  pub core : Updater
  pub holder : Option ReprDecodeState

unfoldable pub with_max_size : ℕ → ℕ → HpackDecoder
with_max_size header_table_size max_header_list_size = record {
  core = record {
    header_list_size = max_header_list_size;
    table = Dynamic.with_max_size header_table_size;
    parts = Parts.new;
    header_size = 0;
  };
  holder = none;
}

-- Each round but the first takes a byte.
abbrev pub enough_fuel : List ℕ → ℕ
enough_fuel buf = length buf + 2

abbrev pub save : Fate (Option ReprDecodeState) × Updater → Fate (Unit {0}) × HpackDecoder
save (returned state, u) = (returned tt, record { core = u; holder = state })
save (failed e, u) = (failed e, record { core = u; holder = none })
save (panicked, u) = (panicked, record { core = u; holder = none })
save (out_of_fuel, u) = (out_of_fuel, record { core = u; holder = none })

-- `load` takes the state out of the holder, and `save` puts one back only if the call succeeds.
pub decode : HpackDecoder → List ℕ → Fate (Unit {0}) × HpackDecoder
unfolding decode_loop
decode d buf = save (decode_loop (enough_fuel buf) buf d.holder d.core)

unfoldable pub finish : HpackDecoder → Fate Parts × HpackDecoder
finish d = elim d.holder [
  | some _ ↦ (failed (connection_error compression_error), d)
  | none ↦ (
    returned d.core.parts,
    record d { core = record d.core { header_size = 0; parts = Parts.new } },
  )
]

unfoldable pub update_header_list_size : HpackDecoder → ℕ → HpackDecoder
update_header_list_size d size = record d { core = record d.core { header_list_size = size } }

-- ===== src/Hpack/Decoder/Panic.antt =====
-- A header line that stops the decoder with a panic.
use commonlibrary_rust_ylong.Common.{ℕ, ◌+◌, ◌≤◌, ◌≡◌, refl, none, List, false, ltb, length, arith}
use commonlibrary_rust_ylong.Common.Result.{err}
use commonlibrary_rust_ylong.Headers
use commonlibrary_rust_ylong.Headers.{InvalidInput, invalid_input}
use commonlibrary_rust_ylong.Headers.Laws.{append_bad_name}
use commonlibrary_rust_ylong.H2.Parts
use commonlibrary_rust_ylong.H2.Parts.{Parts}
use commonlibrary_rust_ylong.Hpack.Table.Header.{Header, other, len}
use commonlibrary_rust_ylong.Hpack.Table.Dynamic
use commonlibrary_rust_ylong.Hpack.Repr.Prefix.{Name, Representation}
use commonlibrary_rust_ylong.H2.Fate.{returned, panicked}
use commonlibrary_rust_ylong.Hpack.Decoder.{Updater, check_header_list_size, update_parts, update}

parts_bad_name :
    (p : Parts) (name value : List ℕ)
    → Headers.normalize name ≡ err invalid_input
    → Parts.update p (other name) value ≡ none
unfolding Parts.update
parts_bad_name p name value bad =
    rw (append_bad_name p.map name value invalid_input bad, Parts.update)

update_parts_bad_name :
    (u : Updater) (name value : List ℕ)
    → Headers.normalize name ≡ err invalid_input
    → update_parts (other name) value u ≡ (panicked, u)
unfolding update_parts
update_parts_bad_name u name value bad = rw (parts_bad_name u.parts name value bad, update_parts)

check_fits :
    (h : Header) (v : List ℕ) (u : Updater)
    → u.header_size + (len h + length v + 32) ≤ u.header_list_size
    → check_header_list_size h v u
      ≡ (returned tt, record u { header_size = u.header_size + (len h + length v + 32) })
unfolding check_header_list_size
check_fits h v u fits =
    let test : ltb u.header_list_size (u.header_size + (len h + length v + 32)) ≡ false =
      ground arith in
    rw test

-- A literal line whose name `HeaderName::from_bytes` refuses, and that fits the size limit, makes the
-- decoder panic, whatever its value, with or without indexing.
pub update_bad_name :
    (u : Updater) (name value : List ℕ)
    → Headers.normalize name ≡ err invalid_input
    → u.header_size + (length name + length value + 32) ≤ u.header_list_size
    → ((update (Representation.literal_with_indexing (Name.literal name) value) u).0 ≡ panicked)
      × ((update (Representation.literal_without_indexing (Name.literal name) value) u).0
          ≡ panicked)
      × ((update (Representation.literal_never_indexed (Name.literal name) value) u).0 ≡ panicked)
unfolding update len
update_bad_name u name value bad fits =
    let sized : Updater = record u {
      header_size = u.header_size + (length name + length value + 32);
    } in
    let tabled : Updater = record sized { table = Dynamic.update u.table (other name) value } in
    rw
      (
        check_fits (other name) value u fits,
        update_parts_bad_name tabled name value bad,
        update_parts_bad_name sized name value bad,
      )
      (refl, refl, refl)

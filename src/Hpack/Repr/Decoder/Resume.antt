-- ===== src/Hpack/Repr/Decoder/Resume.antt =====
-- The representation decoder gives the same result however its input is cut into buffers.
use commonlibrary_rust_ylong.Common.{
  ℕ, zero, suc, ◌≡◌, refl, ap, ◌∙◌, Option, none, some, List, [], ◌∷◌, ◌++◌,
}
use commonlibrary_rust_ylong.Common.Result.{Result, ok, err}
use commonlibrary_rust_ylong.H2.Error.{H2Error}
use commonlibrary_rust_ylong.Hpack.Integer.{IntegerDecoder, first_byte, next_byte}
use commonlibrary_rust_ylong.Hpack.Repr.Prefix.{Name, PrefixBit, from_u8, prefix_index_mask}
use commonlibrary_rust_ylong.Hpack.Repr.Decoder.{
  DecResult, decoded, need_more, error, IndexInner, LiteralString, ReprDecodeState, at_first_byte,
  trailing_bytes, decode_trailing, after_trailing, decode_index_inner, length_first_byte,
  decode_literal_string, after_value, decode_value_string, after_name, decode_name_string,
  with_index, after_index, decode_state, at_index, name_string, value_string,
}
use commonlibrary_rust_ylong.Hpack.Repr.Decoder.Strings.{resume, decode_literal_string-append}

after_trailing-append :
    (repr : PrefixBit) (r : Result (Option ℕ) H2Error) (buf ys : List ℕ)
    (next next' : DecResult (PrefixBit × ℕ) IndexInner)
    → next' ≡ resume decode_index_inner next ys
    → after_trailing repr r (buf ++ ys) next'
      ≡ resume decode_index_inner (after_trailing repr r buf next) ys
after_trailing-append repr (ok none) buf ys next next' h = h
after_trailing-append repr (ok (some i)) buf ys next next' h = refl
after_trailing-append repr (err e) buf ys next next' h = refl

decode_trailing-append :
    (repr : PrefixBit) (int : IntegerDecoder) (xs ys : List ℕ)
    → decode_trailing repr int (xs ++ ys)
      ≡ resume decode_index_inner (decode_trailing repr int xs) ys
unfolding decode_index_inner
decode_trailing-append repr int [] ys = refl
decode_trailing-append repr int (x ∷ xs) ys =
    after_trailing-append repr (next_byte int x).0 xs ys _ _
      (decode_trailing-append repr (next_byte int x).1 xs ys)

decode_index_inner-append :
    (s : IndexInner) (xs ys : List ℕ)
    → decode_index_inner s (xs ++ ys) ≡ resume decode_index_inner (decode_index_inner s xs) ys
unfolding decode_index_inner
decode_index_inner-append (trailing_bytes repr int) xs ys = decode_trailing-append repr int xs ys
decode_index_inner-append at_first_byte [] ys = refl
decode_index_inner-append at_first_byte (x ∷ xs) ys =
    go (first_byte x (prefix_index_mask (from_u8 x)))
  where
    go :
        (r : Result ℕ IntegerDecoder)
        → (elim r [
          | ok idx ↦ decoded (from_u8 x, idx) (xs ++ ys)
          | err int ↦ decode_trailing (from_u8 x) int (xs ++ ys)
        ])
          ≡ resume decode_index_inner
              (elim r [
                | ok idx ↦ decoded (from_u8 x, idx) xs
                | err int ↦ decode_trailing (from_u8 x) int xs
              ])
              ys
    go (ok idx) = refl
    go (err int) = decode_trailing-append (from_u8 x) int xs ys

after_value-append :
    (repr : PrefixBit) (name : Name) (r : DecResult (List ℕ) LiteralString) (ys : List ℕ)
    → after_value repr name (resume decode_literal_string r ys)
      ≡ resume decode_state (after_value repr name r) ys
unfolding decode_state
after_value-append repr name (decoded value rest) ys = refl
after_value-append repr name (need_more inner) ys = refl
after_value-append repr name (error e) ys = refl

decode_value_string-append :
    (repr : PrefixBit) (name : Name) (inner : LiteralString) (xs ys : List ℕ)
    → decode_value_string repr name inner (xs ++ ys)
      ≡ resume decode_state (decode_value_string repr name inner xs) ys
unfolding decode_value_string
decode_value_string-append repr name inner xs ys =
    ap (after_value repr name) (decode_literal_string-append inner xs ys)
    ∙ after_value-append repr name (decode_literal_string inner xs) ys

after_name-append :
    (repr : PrefixBit) (r : DecResult (List ℕ) LiteralString) (ys : List ℕ)
    → after_name repr (resume decode_literal_string r ys)
      ≡ resume decode_state (after_name repr r) ys
unfolding decode_state
after_name-append repr (decoded octets rest) ys =
    decode_value_string-append repr (Name.literal octets) length_first_byte rest ys
after_name-append repr (need_more inner) ys = refl
after_name-append repr (error e) ys = refl

decode_name_string-append :
    (repr : PrefixBit) (inner : LiteralString) (xs ys : List ℕ)
    → decode_name_string repr inner (xs ++ ys)
      ≡ resume decode_state (decode_name_string repr inner xs) ys
unfolding decode_name_string
decode_name_string-append repr inner xs ys =
    ap (after_name repr) (decode_literal_string-append inner xs ys)
    ∙ after_name-append repr (decode_literal_string inner xs) ys

with_index-append :
    (repr : PrefixBit) (i : ℕ) (rest ys : List ℕ)
    → with_index repr i (rest ++ ys) ≡ resume decode_state (with_index repr i rest) ys
with_index-append PrefixBit.indexed zero rest ys = refl
with_index-append PrefixBit.indexed (suc i) rest ys = refl
with_index-append PrefixBit.size_update i rest ys = refl
with_index-append repr zero rest ys = decode_name_string-append _ length_first_byte rest ys
with_index-append repr (suc i) rest ys =
    decode_value_string-append _ (Name.index (suc i)) length_first_byte rest ys

after_index-append :
    (r : DecResult (PrefixBit × ℕ) IndexInner) (ys : List ℕ)
    → after_index (resume decode_index_inner r ys) ≡ resume decode_state (after_index r) ys
unfolding decode_state
after_index-append (decoded (repr, i) rest) ys = with_index-append repr i rest ys
after_index-append (need_more inner) ys = refl
after_index-append (error e) ys = refl

-- However the input is cut in two, at any state, decoding the whole is decoding the first part and
-- going on with the second: a decoded representation keeps its value and its rest grows by the second
-- part, a saved state goes on with the second part, and an error stays that error.
pub decode_state-append :
    (s : ReprDecodeState) (xs ys : List ℕ)
    → decode_state s (xs ++ ys) ≡ resume decode_state (decode_state s xs) ys
unfolding decode_state
decode_state-append (at_index inner) xs ys =
    ap after_index (decode_index_inner-append inner xs ys)
    ∙ after_index-append (decode_index_inner inner xs) ys
decode_state-append (name_string repr inner) xs ys = decode_name_string-append repr inner xs ys
decode_state-append (value_string repr name inner) xs ys =
    decode_value_string-append repr name inner xs ys

-- ===== src/Hpack/Repr/Decoder.antt =====
-- ylong_http/src/h2/hpack/representation/decoder.rs: a decoder that stops where the buffer ends, and
-- goes on from the saved state with the next buffer.
pub mod Strings
pub mod Shrinks
pub mod Resume
pub mod RoundTrip
use Prim.Native.Nat.{bit_and}
use commonlibrary_rust_ylong.Common.{
  ℕ, zero, suc, ◌+◌, ◌-◌, Option, none, some, List, [], ◌∷◌, ◌++◌, Bool, true, false, leb, ◌==◌,
  if◌then◌else◌, length, take, drop,
}
use commonlibrary_rust_ylong.Common.Result.{Result, ok, err}
use commonlibrary_rust_ylong.H2.Error.{H2Error, connection_error, compression_error}
use commonlibrary_rust_ylong.Huffman
use commonlibrary_rust_ylong.Huffman.{Progress}
use commonlibrary_rust_ylong.Hpack.Integer.{IntegerDecoder, first_byte, next_byte}
use commonlibrary_rust_ylong.Hpack.Repr.Prefix.{
  Name, Representation, PrefixBit, from_u8, prefix_index_mask,
}

-- `DecResult`, with the `buf` that the call leaves behind. With `need_more` that is empty, and after
-- an error no caller reads it.
pub data DecResult (D S : Type 0) : Type 0 where
  decoded : D → List ℕ → DecResult D S
  need_more : S → DecResult D S
  error : H2Error → DecResult D S

abbrev pub compression_failure : H2Error
compression_failure = connection_error compression_error

pub data IndexInner : Type 0 where
  at_first_byte : IndexInner
  trailing_bytes : PrefixBit → IntegerDecoder → IndexInner

pub data LiteralString : Type 0 where
  length_first_byte : LiteralString
  length_trailing_bytes : Bool → IntegerDecoder → LiteralString
  ascii_string_bytes : List ℕ → ℕ → LiteralString
  huffman_string_bytes : Progress → ℕ → ℕ → LiteralString

pub data ReprDecodeState : Type 0 where
  at_index : IndexInner → ReprDecodeState
  name_string : PrefixBit → LiteralString → ReprDecodeState
  value_string : PrefixBit → Name → LiteralString → ReprDecodeState

-- `TrailingBytes::decode`. What `next_byte` returned is matched here, with the loop's next round.
abbrev pub after_trailing :
    PrefixBit
    → Result (Option ℕ) H2Error
    → List ℕ
    → DecResult (PrefixBit × ℕ) IndexInner
    → DecResult (PrefixBit × ℕ) IndexInner
after_trailing repr (ok none) buf next = next
after_trailing repr (ok (some index)) buf next = decoded (repr, index) buf
after_trailing repr (err e) buf next = error e

pub decode_trailing : PrefixBit → IntegerDecoder → List ℕ → DecResult (PrefixBit × ℕ) IndexInner
decode_trailing repr int [] = need_more (trailing_bytes repr int)
decode_trailing repr int (byte ∷ buf) =
    let (result, int') = next_byte int byte in
    let next = decode_trailing repr int' buf in after_trailing repr result buf next

-- `FirstByte::decode`.
decode_first_byte : List ℕ → DecResult (PrefixBit × ℕ) IndexInner
unfolding decode_trailing
decode_first_byte [] = need_more at_first_byte
decode_first_byte (byte ∷ buf) =
    let repr = from_u8 byte in
    elim (first_byte byte (prefix_index_mask repr)) [
      | ok idx ↦ decoded (repr, idx) buf
      | err int ↦ decode_trailing repr int buf
    ]

pub decode_index_inner : IndexInner → List ℕ → DecResult (PrefixBit × ℕ) IndexInner
unfolding decode_first_byte
decode_index_inner at_first_byte buf = decode_first_byte buf
decode_index_inner (trailing_bytes repr int) buf = decode_trailing repr int buf

-- `AsciiStringBytes::decode`.
pub decode_ascii : List ℕ → ℕ → List ℕ → DecResult (List ℕ) LiteralString
decode_ascii octets len buf =
    let pos = len - length octets in
    if leb len (length buf + length octets)
    then decoded (octets ++ take pos buf) (drop pos buf)
    else need_more (ascii_string_bytes (octets ++ buf) len)

abbrev finish_huffman :
    Result Progress Huffman.HuffmanDecodeError → List ℕ → DecResult (List ℕ) LiteralString
finish_huffman (err _) buf = error compression_failure
finish_huffman (ok huffman) buf = elim (Huffman.finish huffman) [
  | ok vec ↦ decoded vec buf
  | err _ ↦ error compression_failure
]

abbrev save_huffman :
    Result Progress Huffman.HuffmanDecodeError → ℕ → ℕ → DecResult (List ℕ) LiteralString
save_huffman (err _) read len = error compression_failure
save_huffman (ok huffman) read len = need_more (huffman_string_bytes huffman read len)

-- `HuffmanStringBytes::decode`.
pub decode_huffman : Progress → ℕ → ℕ → List ℕ → DecResult (List ℕ) LiteralString
decode_huffman huffman read len buf =
    let pos = len - read in
    if leb len (length buf + read)
    then finish_huffman (Huffman.decode huffman (take pos buf)) (drop pos buf)
    else save_huffman (Huffman.decode huffman buf) (read + length buf) len

-- The string's bytes, once its length is known.
abbrev decode_bytes : Bool → ℕ → List ℕ → DecResult (List ℕ) LiteralString
decode_bytes true len buf = decode_huffman Huffman.new 0 len buf
decode_bytes false len buf = decode_ascii [] len buf

abbrev after_length :
    Bool
    → Result (Option ℕ) H2Error
    → List ℕ
    → DecResult (List ℕ) LiteralString
    → DecResult (List ℕ) LiteralString
after_length is_huffman (ok none) buf next = next
after_length is_huffman (err e) buf next = error e
after_length is_huffman (ok (some len)) buf next = decode_bytes is_huffman len buf

-- `LengthTrailingBytes::decode`.
pub decode_length_trailing : Bool → IntegerDecoder → List ℕ → DecResult (List ℕ) LiteralString
decode_length_trailing is_huffman int [] = need_more (length_trailing_bytes is_huffman int)
decode_length_trailing is_huffman int (byte ∷ buf) =
    let (result, int') = next_byte int byte in
    let next = decode_length_trailing is_huffman int' buf in after_length is_huffman result buf next

-- `LengthFirstByte::decode`.
decode_length_first_byte : List ℕ → DecResult (List ℕ) LiteralString
unfolding decode_length_trailing
decode_length_first_byte [] = need_more length_first_byte
decode_length_first_byte (byte ∷ buf) =
    let is_huffman = bit_and byte 0x80 == 0x80 in
    elim (first_byte byte 0x7f) [
      | ok len ↦ decode_bytes is_huffman len buf
      | err int ↦ decode_length_trailing is_huffman int buf
    ]

pub decode_literal_string : LiteralString → List ℕ → DecResult (List ℕ) LiteralString
unfolding decode_length_first_byte decode_ascii decode_huffman
decode_literal_string length_first_byte buf = decode_length_first_byte buf
decode_literal_string (length_trailing_bytes is_huffman int) buf =
    decode_length_trailing is_huffman int buf
decode_literal_string (ascii_string_bytes octets len) buf = decode_ascii octets len buf
decode_literal_string (huffman_string_bytes huffman read len) buf =
    decode_huffman huffman read len buf

abbrev with_value : PrefixBit → Name → List ℕ → Representation
with_value PrefixBit.literal_with_indexing name value =
    Representation.literal_with_indexing name value
with_value PrefixBit.literal_without_indexing name value =
    Representation.literal_without_indexing name value
with_value _ name value = Representation.literal_never_indexed name value

abbrev after_value :
    PrefixBit → Name → DecResult (List ℕ) LiteralString → DecResult Representation ReprDecodeState
after_value repr name (decoded value buf) = decoded (with_value repr name value) buf
after_value repr name (need_more inner) = need_more (value_string repr name inner)
after_value repr name (error e) = error e

-- `ValueString::decode`.
pub decode_value_string :
    PrefixBit → Name → LiteralString → List ℕ → DecResult Representation ReprDecodeState
unfolding decode_literal_string
decode_value_string repr name inner buf = after_value repr name (decode_literal_string inner buf)

abbrev after_name :
    PrefixBit → DecResult (List ℕ) LiteralString → DecResult Representation ReprDecodeState
after_name repr (decoded octets buf) =
    decode_value_string repr (Name.literal octets) length_first_byte buf
after_name repr (need_more inner) = need_more (name_string repr inner)
after_name repr (error e) = error e

-- `NameString::decode`.
pub decode_name_string :
    PrefixBit → LiteralString → List ℕ → DecResult Representation ReprDecodeState
unfolding decode_literal_string
decode_name_string repr inner buf = after_name repr (decode_literal_string inner buf)

-- The arms of `Index::decode` for a decoded prefix and index, in the source's order.
abbrev with_index : PrefixBit → ℕ → List ℕ → DecResult Representation ReprDecodeState
with_index PrefixBit.indexed zero buf = error compression_failure
with_index PrefixBit.indexed (suc i) buf = decoded (Representation.indexed (suc i)) buf
with_index PrefixBit.size_update max_size buf = decoded (Representation.size_update max_size) buf
with_index repr zero buf = decode_name_string repr length_first_byte buf
with_index repr (suc i) buf = decode_value_string repr (Name.index (suc i)) length_first_byte buf

abbrev after_index : DecResult (PrefixBit × ℕ) IndexInner → DecResult Representation ReprDecodeState
after_index (decoded (repr, i) buf) = with_index repr i buf
after_index (need_more inner) = need_more (at_index inner)
after_index (error e) = error e

-- `ReprDecodeState::decode`, with `Index::decode` in its first clause.
pub decode_state : ReprDecodeState → List ℕ → DecResult Representation ReprDecodeState
unfolding decode_index_inner decode_name_string decode_value_string
decode_state (at_index inner) buf = after_index (decode_index_inner inner buf)
decode_state (name_string repr inner) buf = decode_name_string repr inner buf
decode_state (value_string repr name inner) buf = decode_value_string repr name inner buf

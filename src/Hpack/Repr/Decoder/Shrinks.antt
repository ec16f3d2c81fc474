-- ===== src/Hpack/Repr/Decoder/Shrinks.antt =====
-- How much of the buffer a call of the representation decoder takes.
use commonlibrary_rust_ylong.Common.{
  ℕ, zero, suc, ◌+◌, ◌-◌, ◌≤◌, Option, none, some, inl, inr, List, [], ◌∷◌, Bool, true, false,
  Bool-cases, leb, ◌==◌, length, drop, length-drop, arith,
}
use Prim.Native.Nat.{bit_and}
use commonlibrary_rust_ylong.Common.Result.{Result, ok, err}
use commonlibrary_rust_ylong.H2.Error.{H2Error}
use commonlibrary_rust_ylong.Huffman
use commonlibrary_rust_ylong.Huffman.{Progress}
use commonlibrary_rust_ylong.Hpack.Integer.{IntegerDecoder, first_byte, next_byte}
use commonlibrary_rust_ylong.Hpack.Repr.Prefix.{Name, PrefixBit, from_u8, prefix_index_mask}
use commonlibrary_rust_ylong.Hpack.Repr.Decoder.{
  DecResult, decoded, need_more, error, IndexInner, LiteralString, ReprDecodeState, at_first_byte,
  trailing_bytes, decode_trailing, after_trailing, decode_index_inner, length_first_byte,
  length_trailing_bytes, ascii_string_bytes, huffman_string_bytes, decode_ascii, decode_huffman,
  decode_bytes, after_length, decode_length_trailing, decode_literal_string, after_value,
  decode_value_string, after_name, decode_name_string, with_index, after_index, decode_state,
  at_index, name_string, value_string, compression_failure, finish_huffman, save_huffman,
}

-- A decoded result leaves at most `n` bytes.
abbrev pub Leaves : {D S : Type 0} → ℕ → DecResult D S → Type 0
Leaves n (decoded d rest) = length rest ≤ n
Leaves n (need_more s) = Unit
Leaves n (error e) = Unit

pub Leaves-mono : {D S : Type 0} (n m : ℕ) (r : DecResult D S) → n ≤ m → Leaves n r → Leaves m r
Leaves-mono n m (decoded d rest) h l = omega arith
Leaves-mono n m (need_more s) h l = tt
Leaves-mono n m (error e) h l = tt

decode_trailing-Leaves :
    (repr : PrefixBit) (int : IntegerDecoder) (buf : List ℕ)
    → Leaves (length buf) (decode_trailing repr int buf)
unfolding decode_trailing
decode_trailing-Leaves repr int [] = tt
decode_trailing-Leaves repr int (b ∷ buf) =
    go (next_byte int b).0 _ (decode_trailing-Leaves repr (next_byte int b).1 buf)
  where
    go :
        (r : Result (Option ℕ) H2Error) (next : DecResult (PrefixBit × ℕ) IndexInner)
        → Leaves (length buf) next
        → Leaves (suc (length buf)) (after_trailing repr r buf next)
    go (ok none) next h = Leaves-mono (length buf) (suc (length buf)) next (omega arith) h
    go (ok (some i)) next h = omega arith
    go (err e) next h = tt

decode_first_byte-Leaves :
    (b : ℕ) (buf : List ℕ) → Leaves (length buf) (decode_index_inner at_first_byte (b ∷ buf))
unfolding decode_index_inner
decode_first_byte-Leaves b buf = go (first_byte b (prefix_index_mask (from_u8 b)))
  where
    go :
        (r : Result ℕ IntegerDecoder)
        → Leaves (length buf) (elim r as (λ _. DecResult (PrefixBit × ℕ) IndexInner) [
          | ok idx ↦ decoded (from_u8 b, idx) buf
          | err int ↦ decode_trailing (from_u8 b) int buf
        ])
    go (ok idx) = omega arith
    go (err int) = decode_trailing-Leaves (from_u8 b) int buf

decode_index_inner-Leaves :
    (s : IndexInner) (buf : List ℕ) → Leaves (length buf) (decode_index_inner s buf)
unfolding decode_index_inner
decode_index_inner-Leaves (trailing_bytes repr int) buf = decode_trailing-Leaves repr int buf
decode_index_inner-Leaves at_first_byte [] = tt
decode_index_inner-Leaves at_first_byte (b ∷ buf) =
    Leaves-mono (length buf) (suc (length buf)) (decode_index_inner at_first_byte (b ∷ buf))
      (omega arith) (decode_first_byte-Leaves b buf)

decode_ascii-Leaves :
    (octets : List ℕ) (len : ℕ) (buf : List ℕ) → Leaves (length buf) (decode_ascii octets len buf)
unfolding decode_ascii
decode_ascii-Leaves octets len buf = elim (Bool-cases (leb len (length buf + length octets))) [
  | inl enough ↦ rw enough (omega (arith, length-drop (len - length octets) buf))
  | inr short ↦ rw short tt
]

finish_huffman-Leaves :
    (r : Result Progress Huffman.HuffmanDecodeError) (n : ℕ) (buf : List ℕ)
    → Leaves (length buf) (finish_huffman r (drop n buf))
finish_huffman-Leaves (err e) n buf = tt
finish_huffman-Leaves (ok p) n buf = go (Huffman.finish p)
  where
    go :
        (r : Result (List ℕ) Huffman.HuffmanDecodeError)
        → Leaves (length buf) (elim r as (λ _. DecResult (List ℕ) LiteralString) [
          | ok vec ↦ decoded vec (drop n buf)
          | err _ ↦ error compression_failure
        ])
    go (ok vec) = omega (arith, length-drop n buf)
    go (err e) = tt

save_huffman-Leaves :
    (r : Result Progress Huffman.HuffmanDecodeError) (read len n : ℕ)
    → Leaves n (save_huffman r read len)
save_huffman-Leaves (ok p) read len n = tt
save_huffman-Leaves (err e) read len n = tt

decode_huffman-Leaves :
    (p : Progress) (read len : ℕ) (buf : List ℕ)
    → Leaves (length buf) (decode_huffman p read len buf)
unfolding decode_huffman
decode_huffman-Leaves p read len buf = elim (Bool-cases (leb len (length buf + read))) [
  | inl enough ↦ rw enough (finish_huffman-Leaves _ (len - read) buf)
  | inr short ↦ rw short (save_huffman-Leaves _ (read + length buf) len (length buf))
]

decode_bytes-Leaves :
    (is_huffman : Bool) (len : ℕ) (buf : List ℕ)
    → Leaves (length buf) (decode_bytes is_huffman len buf)
decode_bytes-Leaves true len buf = decode_huffman-Leaves Huffman.new 0 len buf
decode_bytes-Leaves false len buf = decode_ascii-Leaves [] len buf

-- The same, where a byte stands before the buffer.
after_byte :
    {D S : Type 0} (buf : List ℕ) (r : DecResult D S)
    → Leaves (length buf) r
    → Leaves (suc (length buf)) r
after_byte buf r = Leaves-mono (length buf) (suc (length buf)) r (omega arith)

decode_length_trailing-Leaves :
    (is_huffman : Bool) (int : IntegerDecoder) (buf : List ℕ)
    → Leaves (length buf) (decode_length_trailing is_huffman int buf)
unfolding decode_length_trailing
decode_length_trailing-Leaves is_huffman int [] = tt
decode_length_trailing-Leaves is_huffman int (b ∷ buf) =
    go (next_byte int b).0 _ (decode_length_trailing-Leaves is_huffman (next_byte int b).1 buf)
  where
    go :
        (r : Result (Option ℕ) H2Error) (next : DecResult (List ℕ) LiteralString)
        → Leaves (length buf) next
        → Leaves (suc (length buf)) (after_length is_huffman r buf next)
    go (ok none) next h = after_byte buf next h
    go (ok (some len)) next h = after_byte buf _ (decode_bytes-Leaves is_huffman len buf)
    go (err e) next h = tt

decode_literal_string-Leaves :
    (s : LiteralString) (buf : List ℕ) → Leaves (length buf) (decode_literal_string s buf)
unfolding decode_literal_string
decode_literal_string-Leaves (length_trailing_bytes is_huffman int) buf =
    decode_length_trailing-Leaves is_huffman int buf
decode_literal_string-Leaves (ascii_string_bytes octets len) buf =
    decode_ascii-Leaves octets len buf
decode_literal_string-Leaves (huffman_string_bytes p read len) buf =
    decode_huffman-Leaves p read len buf
decode_literal_string-Leaves length_first_byte [] = tt
decode_literal_string-Leaves length_first_byte (b ∷ buf) = go (first_byte b 0x7f)
  where
    go :
        (r : Result ℕ IntegerDecoder)
        → Leaves (suc (length buf)) (elim r as (λ _. DecResult (List ℕ) LiteralString) [
          | ok len ↦ decode_bytes (bit_and b 0x80 == 0x80) len buf
          | err int ↦ decode_length_trailing (bit_and b 0x80 == 0x80) int buf
        ])
    go (ok len) = after_byte buf _ (decode_bytes-Leaves (bit_and b 0x80 == 0x80) len buf)
    go (err int) = after_byte buf _ (decode_length_trailing-Leaves (bit_and b 0x80 == 0x80) int buf)

decode_value_string-Leaves :
    (repr : PrefixBit) (name : Name) (inner : LiteralString) (buf : List ℕ)
    → Leaves (length buf) (decode_value_string repr name inner buf)
unfolding decode_value_string
decode_value_string-Leaves repr name inner buf =
    go (decode_literal_string inner buf) (decode_literal_string-Leaves inner buf)
  where
    go :
        (r : DecResult (List ℕ) LiteralString)
        → Leaves (length buf) r
        → Leaves (length buf) (after_value repr name r)
    go (decoded value rest) h = h
    go (need_more s) h = tt
    go (error e) h = tt

decode_name_string-Leaves :
    (repr : PrefixBit) (inner : LiteralString) (buf : List ℕ)
    → Leaves (length buf) (decode_name_string repr inner buf)
unfolding decode_name_string
decode_name_string-Leaves repr inner buf =
    go (decode_literal_string inner buf) (decode_literal_string-Leaves inner buf)
  where
    go :
        (r : DecResult (List ℕ) LiteralString)
        → Leaves (length buf) r
        → Leaves (length buf) (after_name repr r)
    go (decoded octets rest) h =
        Leaves-mono (length rest) (length buf)
          (decode_value_string repr (Name.literal octets) length_first_byte rest) h
          (decode_value_string-Leaves repr (Name.literal octets) length_first_byte rest)
    go (need_more s) h = tt
    go (error e) h = tt

with_index-Leaves :
    (repr : PrefixBit) (i : ℕ) (rest : List ℕ) → Leaves (length rest) (with_index repr i rest)
with_index-Leaves PrefixBit.indexed zero rest = tt
with_index-Leaves PrefixBit.indexed (suc i) rest = omega arith
with_index-Leaves PrefixBit.size_update i rest = omega arith
with_index-Leaves repr zero rest = decode_name_string-Leaves _ length_first_byte rest
with_index-Leaves repr (suc i) rest =
    decode_value_string-Leaves _ (Name.index (suc i)) length_first_byte rest

after_index-Leaves :
    (n : ℕ) (r : DecResult (PrefixBit × ℕ) IndexInner) → Leaves n r → Leaves n (after_index r)
after_index-Leaves n (decoded (repr, i) rest) h =
    Leaves-mono (length rest) n (with_index repr i rest) h (with_index-Leaves repr i rest)
after_index-Leaves n (need_more s) h = tt
after_index-Leaves n (error e) h = tt

-- A representation that is decoded leaves no more than the buffer, and from the start it takes a byte.
pub decode_state-Leaves :
    (s : ReprDecodeState) (buf : List ℕ) → Leaves (length buf) (decode_state s buf)
unfolding decode_state
decode_state-Leaves (at_index inner) buf =
    after_index-Leaves (length buf) (decode_index_inner inner buf)
      (decode_index_inner-Leaves inner buf)
decode_state-Leaves (name_string repr inner) buf = decode_name_string-Leaves repr inner buf
decode_state-Leaves (value_string repr name inner) buf =
    decode_value_string-Leaves repr name inner buf

pub decode_start-Leaves :
    (b : ℕ) (buf : List ℕ) → Leaves (length buf) (decode_state (at_index at_first_byte) (b ∷ buf))
unfolding decode_state
decode_start-Leaves b buf =
    after_index-Leaves (length buf) (decode_index_inner at_first_byte (b ∷ buf))
      (decode_first_byte-Leaves b buf)

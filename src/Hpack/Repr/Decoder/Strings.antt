-- ===== src/Hpack/Repr/Decoder/Strings.antt =====
-- String literals that are cut into buffers: ylong_http/src/h2/hpack/representation/decoder.rs.
use Prim.Native.Nat.{bit_and}
use mathlib.Core.List.{append_assoc}
use commonlibrary_rust_ylong.Common.{
  ℕ, ◌+◌, ◌-◌, ◌≤◌, ◌≡◌, refl, ap, ◌∙◌, Option, none, some, List, [], ◌∷◌, ◌++◌, Bool, true, false,
  leb, ◌==◌, inl, inr, Bool-cases, length, take, drop, length-append, take-append_le,
  drop-append_le, take-append_ge, drop-append_ge, arith,
}
use commonlibrary_rust_ylong.Common.Result.{Result, ok, err, ◌>>=◌}
use commonlibrary_rust_ylong.H2.Error.{H2Error}
use commonlibrary_rust_ylong.Huffman
use commonlibrary_rust_ylong.Huffman.{Progress}
use commonlibrary_rust_ylong.Huffman.Resume.{decode-append}
use commonlibrary_rust_ylong.Hpack.Integer.{IntegerDecoder, first_byte, next_byte}
use commonlibrary_rust_ylong.Hpack.Repr.Decoder.{
  DecResult, decoded, need_more, error, LiteralString, length_first_byte, length_trailing_bytes,
  ascii_string_bytes, huffman_string_bytes, decode_ascii, decode_huffman, decode_bytes,
  after_length, decode_length_trailing, decode_literal_string, finish_huffman, save_huffman,
}

-- What a decoder gives once `ys` follows the buffer that it gave a result for.
abbrev pub resume :
    {D S : Type 0} → (S → List ℕ → DecResult D S) → DecResult D S → List ℕ → DecResult D S
resume next (decoded d rest) ys = decoded d (rest ++ ys)
resume next (need_more s) ys = next s ys
resume next (error e) ys = error e

-- The test that the second buffer meets, in the terms of the whole input.
second_test :
    (len : ℕ) (seen : ℕ) (xs ys : List ℕ) (seen' : ℕ)
    → seen' ≡ seen + length xs
    → leb len (length ys + seen') ≡ leb len (length (xs ++ ys) + seen)
second_test len seen xs ys seen' h = ap (leb len) (omega (arith, length-append xs ys))

first_test :
    (len seen : ℕ) (xs ys : List ℕ)
    → leb len (length xs + seen) ≡ true
    → (leb len (length (xs ++ ys) + seen) ≡ true) × (len - seen ≤ length xs)
first_test len seen xs ys h = (ground (arith, length-append xs ys), ground arith)

decode_ascii-append :
    (octets : List ℕ) (len : ℕ) (xs ys : List ℕ)
    → decode_ascii octets len (xs ++ ys)
      ≡ resume decode_literal_string (decode_ascii octets len xs) ys
unfolding decode_literal_string
decode_ascii-append octets len xs ys = elim (Bool-cases (leb len (length xs + length octets))) [
  | inl enough ↦
      let (more, pos) = first_test len (length octets) xs ys enough in
      rw (enough, more, take-append_le _ xs ys pos, drop-append_le _ xs ys pos)
  | inr short ↦
      let test = second_test len (length octets) xs ys _ (length-append octets xs) in
      rw (short, test)
        (elim (Bool-cases (leb len (length (xs ++ ys) + length octets))) [
          | inl more ↦
              let pos : len - length octets ≡ length xs + (len - length (octets ++ xs)) =
                ground (arith, length-append octets xs) in
              rw (more, take-append_ge _ _ xs ys pos, drop-append_ge _ _ xs ys pos, append_assoc)
          | inr still ↦ rw (still, append_assoc)
        ])
]

finish_huffman-append :
    (r : Result Progress Huffman.HuffmanDecodeError) (rest ys : List ℕ)
    → finish_huffman r (rest ++ ys) ≡ resume decode_literal_string (finish_huffman r rest) ys
finish_huffman-append r rest ys = ground arith

-- A string that ends in the second buffer, and one that does not.
finish_second :
    (r : Result Progress Huffman.HuffmanDecodeError) (read len : ℕ) (ys : List ℕ)
    → leb len (length ys + read) ≡ true
    → finish_huffman (r >>= λ q. Huffman.decode q (take (len - read) ys)) (drop (len - read) ys)
      ≡ resume decode_literal_string (save_huffman r read len) ys
unfolding decode_literal_string
finish_second (ok q) read len ys test = rw test
finish_second (err e) read len ys test = refl

save_second :
    (r : Result Progress Huffman.HuffmanDecodeError) (read len : ℕ) (ys : List ℕ)
    → leb len (length ys + read) ≡ false
    → save_huffman (r >>= λ q. Huffman.decode q ys) (read + length ys) len
      ≡ resume decode_literal_string (save_huffman r read len) ys
unfolding decode_literal_string
save_second (ok q) read len ys test = rw test
save_second (err e) read len ys test = refl

decode_huffman-append :
    (huffman : Progress) (read len : ℕ) (xs ys : List ℕ)
    → decode_huffman huffman read len (xs ++ ys)
      ≡ resume decode_literal_string (decode_huffman huffman read len xs) ys
unfolding decode_huffman
decode_huffman-append huffman read len xs ys = elim (Bool-cases (leb len (length xs + read))) [
  | inl enough ↦
      let (more, pos) = first_test len read xs ys enough in
      rw (enough, more, take-append_le _ xs ys pos, drop-append_le _ xs ys pos)
        (finish_huffman-append _ (drop (len - read) xs) ys)
  | inr short ↦
      let seen = read + length xs in
      let test = second_test len read xs ys seen refl in
      rw short (elim (Bool-cases (leb len (length (xs ++ ys) + read))) [
        | inl more ↦
            let pos : len - read ≡ length xs + (len - seen) = ground arith in
            rw (more, take-append_ge _ _ xs ys pos, drop-append_ge _ _ xs ys pos, decode-append)
              (finish_second (Huffman.decode huffman xs) seen len ys (test ∙ more))
        | inr still ↦
            let total : read + length (xs ++ ys) ≡ seen + length ys =
              omega (arith, length-append xs ys) in
            rw (still, total, decode-append)
              (save_second (Huffman.decode huffman xs) seen len ys (test ∙ still))
      ])
]

decode_bytes-append :
    (is_huffman : Bool) (len : ℕ) (xs ys : List ℕ)
    → decode_bytes is_huffman len (xs ++ ys)
      ≡ resume decode_literal_string (decode_bytes is_huffman len xs) ys
decode_bytes-append true len xs ys = decode_huffman-append Huffman.new 0 len xs ys
decode_bytes-append false len xs ys = decode_ascii-append [] len xs ys

after_length-append :
    (is_huffman : Bool) (r : Result (Option ℕ) H2Error) (buf ys : List ℕ)
    (next next' : DecResult (List ℕ) LiteralString)
    → next' ≡ resume decode_literal_string next ys
    → after_length is_huffman r (buf ++ ys) next'
      ≡ resume decode_literal_string (after_length is_huffman r buf next) ys
after_length-append is_huffman (ok none) buf ys next next' h = h
after_length-append is_huffman (err e) buf ys next next' h = refl
after_length-append is_huffman (ok (some len)) buf ys next next' h =
    decode_bytes-append is_huffman len buf ys

decode_length_trailing-append :
    (is_huffman : Bool) (int : IntegerDecoder) (xs ys : List ℕ)
    → decode_length_trailing is_huffman int (xs ++ ys)
      ≡ resume decode_literal_string (decode_length_trailing is_huffman int xs) ys
unfolding decode_literal_string
decode_length_trailing-append is_huffman int [] ys = refl
decode_length_trailing-append is_huffman int (x ∷ xs) ys =
    after_length-append is_huffman (next_byte int x).0 xs ys _ _
      (decode_length_trailing-append is_huffman (next_byte int x).1 xs ys)

pub decode_literal_string-append :
    (s : LiteralString) (xs ys : List ℕ)
    → decode_literal_string s (xs ++ ys)
      ≡ resume decode_literal_string (decode_literal_string s xs) ys
unfolding decode_literal_string
decode_literal_string-append (length_trailing_bytes is_huffman int) xs ys =
    decode_length_trailing-append is_huffman int xs ys
decode_literal_string-append (ascii_string_bytes octets len) xs ys =
    decode_ascii-append octets len xs ys
decode_literal_string-append (huffman_string_bytes huffman read len) xs ys =
    decode_huffman-append huffman read len xs ys
decode_literal_string-append length_first_byte [] ys = refl
decode_literal_string-append length_first_byte (x ∷ xs) ys = go (first_byte x 0x7f)
  where
    go :
        (r : Result ℕ IntegerDecoder)
        → (elim r [
          | ok len ↦ decode_bytes (bit_and x 0x80 == 0x80) len (xs ++ ys)
          | err int ↦ decode_length_trailing (bit_and x 0x80 == 0x80) int (xs ++ ys)
        ])
          ≡ resume decode_literal_string
              (elim r [
                | ok len ↦ decode_bytes (bit_and x 0x80 == 0x80) len xs
                | err int ↦ decode_length_trailing (bit_and x 0x80 == 0x80) int xs
              ])
              ys
    go (ok len) = decode_bytes-append (bit_and x 0x80 == 0x80) len xs ys
    go (err int) = decode_length_trailing-append (bit_and x 0x80 == 0x80) int xs ys

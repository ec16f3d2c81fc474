-- ===== src/Huffman.antt =====
-- ylong_http/src/huffman/mod.rs: Huffman decoding four bits at a time, whole or in pieces.
mod Table
pub mod Resume
use Prim.Native.Nat.{bit_and}
use commonlibrary_rust_ylong.Common.{
  ℕ, ◌/◌, ◌^◌, Option, none, some, List, [], ◌∷◌, ◌++◌, Bool, not, ◌&&◌, ◌==◌, if◌then◌else◌,
  get_elem?,
}
use commonlibrary_rust_ylong.Common.Result.{Result, ok, err, ◌>>=◌}
use Table.{huffman_decode_table}

pub data HuffmanDecodeError : Type 0 where
  invalid_huffman_code : HuffmanDecodeError

-- `HUFFMAN_DECODE[state][bits]`. The table has an entry for each `u8` state and each four bits, so
-- the error entry in the two other cases is never read.
lookup : ℕ → ℕ → ℕ × ℕ × ℕ
unfolding huffman_decode_table
lookup state bits = elim (get_elem? huffman_decode_table state) [
  | none ↦ (0, 0, 0x4)
  | some row ↦ elim (get_elem? row bits) [ none ↦ (0, 0, 0x4) | some entry ↦ entry ]
]

-- What one half of the loop's body reads and writes: `state`, `flags` and `dst`.
pub record Progress : Type 0 where
  pub state : ℕ
  pub flags : ℕ
  pub dst : List ℕ

-- One table lookup with its two tests.
abbrev take_entry : ℕ × ℕ × ℕ → List ℕ → Result Progress HuffmanDecodeError
take_entry (state, result, flags) dst =
    if bit_and flags 0x4 == 0x4
    then err invalid_huffman_code
    else ok (record {
      state = state;
      flags = flags;
      dst = if bit_and flags 0x2 == 0x2 then dst ++ result ∷ [] else dst;
    })

pub half_byte : Progress → ℕ → Result Progress HuffmanDecodeError
unfolding lookup
half_byte p bits = take_entry (lookup p.state bits) p.dst

pub huffman_decode_inner : List ℕ → Progress → Result Progress HuffmanDecodeError
unfolding half_byte
huffman_decode_inner [] p = ok p
huffman_decode_inner (byte ∷ src) p = half_byte p (byte / 2 ^ 4) >>= λ q.
    half_byte q (bit_and byte 0xf) >>= λ r. huffman_decode_inner src r

-- The final test, of `huffman_decode` and of `finish`.
abbrev is_incomplete : Progress → Bool
is_incomplete p = not (p.state == 0) && (bit_and p.flags 0x1 == 0)

-- On success, `dst` with what was decoded. An error leaves a part of it in `dst`, which no caller reads.
pub huffman_decode : List ℕ → List ℕ → Result (List ℕ) HuffmanDecodeError
unfolding huffman_decode_inner
huffman_decode src dst =
    huffman_decode_inner src (record { state = 0; flags = 0; dst = dst }) >>= λ p.
    if is_incomplete p then err invalid_huffman_code else ok p.dst

-- `HuffmanDecoder`, whose field `vec` is `dst` here.
unfoldable pub new : Progress
new = record { state = 0; flags = 0; dst = [] }

pub decode : Progress → List ℕ → Result Progress HuffmanDecodeError
decode p src = huffman_decode_inner src p

pub finish : Progress → Result (List ℕ) HuffmanDecodeError
finish p = if is_incomplete p then err invalid_huffman_code else ok p.dst

-- ===== src/Frame/Numbers/Bytes.antt =====
-- The bytes of a number, highest first, and the number that they give back.
use Prim.Native.Nat.{bit_and}
use commonlibrary_rust_ylong.Common.{ℕ, ◌+◌, ◌*◌, ◌/◌, ◌%◌, ◌^◌, ◌<◌, ◌≡◌, ◌∙◌, arith}
use commonlibrary_rust_ylong.Common.Masks.{bit_and-ones, bit_or-join}
use commonlibrary_rust_ylong.Frame.Numbers.{get_code_value, get_stream_id}

-- `(value >> shift) as u8`.
abbrev pub byte_at : ℕ → ℕ → ℕ
byte_at shift value = value / 2 ^ shift % 256

pub get_code_value-sum :
    (a b c d : ℕ)
    → b < 256
    → c < 256
    → d < 256
    → get_code_value a b c d ≡ a * 2 ^ 24 + b * 2 ^ 16 + c * 2 ^ 8 + d
unfolding get_code_value
get_code_value-sum a b c d hb hc hd =
    let first : a * 2 ^ 24 + b * 2 ^ 16 ≡ (a * 2 ^ 8 + b) * 2 ^ 16 = omega arith in
    let second : (a * 2 ^ 8 + b) * 2 ^ 16 + c * 2 ^ 8 ≡ ((a * 2 ^ 8 + b) * 2 ^ 8 + c) * 2 ^ 8 =
      omega arith in
    rw
      (
        bit_or-join 24 a (b * 2 ^ 16) (omega arith),
        first,
        bit_or-join 16 (a * 2 ^ 8 + b) (c * 2 ^ 8) (omega arith),
        second,
        bit_or-join 8 ((a * 2 ^ 8 + b) * 2 ^ 8 + c) d (omega arith),
      )
      (omega arith)

-- A 32-bit number is read back from its four bytes.
pub get_code_value-byte_at :
    (v : ℕ)
    → v < 2 ^ 32
    → get_code_value (byte_at 24 v) (byte_at 16 v) (byte_at 8 v) (byte_at 0 v) ≡ v
get_code_value-byte_at v h =
    get_code_value-sum (byte_at 24 v) (byte_at 16 v) (byte_at 8 v) (byte_at 0 v) (omega arith)
      (omega arith) (omega arith)
    ∙ omega arith

-- So is a stream, of 31 bits.
pub get_stream_id-byte_at :
    (v : ℕ)
    → v < 2 ^ 31
    → get_stream_id (byte_at 24 v) (byte_at 16 v) (byte_at 8 v) (byte_at 0 v) ≡ v
unfolding get_stream_id
get_stream_id-byte_at v h =
    let masked : bit_and (byte_at 24 v) 0x7f ≡ byte_at 24 v =
      bit_and-ones 7 (byte_at 24 v) ∙ omega arith in
    rw masked (get_code_value-byte_at v (omega arith))

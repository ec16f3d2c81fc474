-- ===== src/Hpack/Integer.antt =====
-- ylong_http/src/h2/hpack/integer.rs: prefixed integers, byte by byte. `usize` has 64 bits.
pub mod Groups
use Prim.Native.Nat.{bit_and, bit_or}
use commonlibrary_rust_ylong.Common.{
  ℕ, zero, suc, ◌+◌, ◌-◌, ◌/◌, ◌%◌, ◌^◌, Option, none, some, List, [], ◌∷◌, Bool, true, false, ltb,
  leb, ◌==◌, if◌then◌else◌,
}
use commonlibrary_rust_ylong.Common.Result.{
  Result, ok, err, and_then, checked_shl, checked_mul, checked_add,
}
use commonlibrary_rust_ylong.H2.Error.{H2Error, connection_error, compression_error}

pub record IntegerDecoder : Type 0 where
  pub index : ℕ
  pub shift : ℕ

unfoldable pub first_byte : ℕ → ℕ → Result ℕ IntegerDecoder
first_byte byte mask =
    let index = bit_and byte mask in
    if ltb index mask then ok index else err (record { index = index; shift = 1 })

-- The new value of `self.index`, where nothing overflows.
abbrev pub accumulate : IntegerDecoder → ℕ → Option ℕ
accumulate d byte =
    and_then (and_then (checked_shl 1 (d.shift - 1)) (λ res. checked_mul res (bit_and byte 0x7f)))
      (λ res. checked_add res d.index)

-- The state is unchanged where `?` returns the error.
pub next_byte : IntegerDecoder → ℕ → Result (Option ℕ) H2Error × IntegerDecoder
next_byte d byte = elim (accumulate d byte) [
  | none ↦ (err (connection_error compression_error), d)
  | some index ↦ (
    ok (if bit_and byte 0x80 == 0 then some index else none),
    record { index = index; shift = d.shift + 7 },
  )
]

pub data IntegerEncodeState : Type 0 where
  first other finish : IntegerEncodeState

pub record IntegerEncoder : Type 0 where
  pub i : ℕ
  pub mask : ℕ
  pub pre : ℕ
  pub state : IntegerEncodeState

unfoldable pub new : ℕ → ℕ → ℕ → IntegerEncoder
new i mask pre = record { i = i; mask = mask; pre = pre; state = first }

-- One call in each state of the encoder.
pub encode_byte : IntegerEncodeState → IntegerEncoder → Option ℕ × IntegerEncoder
encode_byte first e =
    if ltb e.i e.mask
    then (some (bit_or e.pre (e.i % 256)), record e { state = finish })
    else (some (bit_or e.pre e.mask), record e { i = e.i - e.mask; state = other })
encode_byte other e =
    if leb 128 e.i
    then (some (bit_or (bit_and e.i 0x7f % 256) 0x80), record e { i = e.i / 2 ^ 7 })
    else (some (bit_and e.i 0x7f % 256), record e { state = finish })
encode_byte finish e = (none, e)

pub encoder_next_byte : IntegerEncoder → Option ℕ × IntegerEncoder
unfolding encode_byte
encoder_next_byte e = encode_byte e.state e

unfoldable pub is_finish : IntegerEncoder → Bool
is_finish e = elim e.state [ finish ↦ true | _ ↦ false ]

-- `Integer::encode` of representation/encoder.rs, into the room `dst` that is left: the bytes that are
-- written, and the encoder to go on with if the room ends first.
pub encode : ℕ → IntegerEncoder → List ℕ × IntegerEncoder
unfolding encoder_next_byte is_finish
encode zero e = ([], e)
encode (suc room) e =
    let (byte, e') = encoder_next_byte e in
    let (bytes, end) = encode room e' in elim byte [ none ↦ ([], e) | some b ↦ (b ∷ bytes, end) ]

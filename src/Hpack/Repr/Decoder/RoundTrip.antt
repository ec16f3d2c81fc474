-- ===== src/Hpack/Repr/Decoder/RoundTrip.antt =====
-- What the integer encoder writes, the decoder of a representation's index reads back.
use Prim.Native.Nat.{bit_and, bit_or}
use native.Mathlib.Numerals.{towards_suc}
use native.Mathlib.Nat.{pow-suc}
use commonlibrary_rust_ylong.Common.{
  ℕ, zero, suc, ◌+◌, ◌-◌, ◌*◌, ◌/◌, ◌%◌, ◌^◌, ◌≤◌, ◌<◌, ◌≡◌, refl, sym, ap, ◌∙◌, inl, inr, List, [],
  ◌∷◌, ◌++◌, Bool, true, false, Bool-cases, ltb, leb, ◌==◌, ◌&&◌, ◌||◌, arith,
}
use commonlibrary_rust_ylong.Common.Bits.{passes, passes_at}
use commonlibrary_rust_ylong.Common.Result.{usize_mod}
use commonlibrary_rust_ylong.Hpack.Repr.Prefix.{PrefixBit, from_u8, prefix_index_mask, bits}
use commonlibrary_rust_ylong.Hpack.Repr.Decoder.{
  decoded, decode_trailing, decode_index_inner, decode_first_byte, at_first_byte,
}
use commonlibrary_rust_ylong.Hpack.Integer.{finish, first_byte, new, encode}
use commonlibrary_rust_ylong.Hpack.Integer.Groups.{
  groups, at_other, at_shift, next_byte_lem, finished, first_short, first_long, encode-groups,
  encode_write,
}

spread : (p q r c : ℕ) → p * 128 * q + (p * r + c) ≡ p * (128 * q + r) + c
spread p q r c = grind arith

shift_split :
    (s i index : ℕ) → 2 ^ (s + 7) * (i / 128) + (2 ^ s * (i % 128) + index) ≡ 2 ^ s * i + index
shift_split s i index =
    let power : 2 ^ (s + 7) ≡ 2 ^ s * 128 = simp towards_suc (omega arith) in
    let whole : i ≡ 128 * (i / 128) + i % 128 = omega arith in
    rw power (spread (2 ^ s) (i / 128) (i % 128) index ∙ ap (λ x. 2 ^ s * x + index) (sym whole))

decode_last :
    (s index i : ℕ) (repr : PrefixBit) (rest : List ℕ)
    → i < 128
    → s < 64
    → 2 ^ s * i + index < usize_mod
    → decode_trailing repr (at_shift s index) (i ∷ rest) ≡ decoded (repr, 2 ^ s * i + index) rest
unfolding decode_trailing
decode_last s index i repr rest h hs b =
    let whole : i % 128 ≡ i = omega arith in
    let small : ltb i 128 ≡ true = ground arith in
    let bound : 2 ^ s * (i % 128) + index < usize_mod = rw whole b in
    rw (next_byte_lem s index i hs (omega arith) bound, small, whole)

decode_more :
    (s index b : ℕ) (repr : PrefixBit) (rest : List ℕ)
    → b < 128
    → s < 64
    → 2 ^ s * b + index < usize_mod
    → decode_trailing repr (at_shift s index) ((b + 128) ∷ rest)
      ≡ decode_trailing repr (at_shift (s + 7) (2 ^ s * b + index)) rest
unfolding decode_trailing
decode_more s index b repr rest h hs bound =
    let whole : (b + 128) % 128 ≡ b = omega arith in
    let large : ltb (b + 128) 128 ≡ false = ground arith in
    let bound' : 2 ^ s * ((b + 128) % 128) + index < usize_mod = rw whole bound in
    rw (next_byte_lem s index (b + 128) hs (omega arith) bound', large, whole)

decode_groups :
    (k s index i : ℕ) (repr : PrefixBit) (rest : List ℕ)
    → i < 128 ^ suc k
    → s + 7 * k < 64
    → 2 ^ s * i + index < usize_mod
    → decode_trailing repr (at_shift s index) (groups k i ++ rest)
      ≡ decoded (repr, 2 ^ s * i + index) rest
unfolding decode_trailing
decode_groups zero s index i repr rest h hs b =
    decode_last s index i repr rest (omega arith) (omega arith) b
decode_groups (suc k) s index i repr rest h hs b = elim (Bool-cases (leb 128 i)) [
  | inl large ↦
      let below : i < 128 ^ suc k * 128 = rw (← pow-suc 128 (suc k)) h in
      let split = shift_split s i index in
      let first : 2 ^ s * (i % 128) + index < usize_mod = omega (arith, split) in
      let all : 2 ^ (s + 7) * (i / 128) + (2 ^ s * (i % 128) + index) < usize_mod = rw split b in
      rw
        (
          large,
          decode_more s index (i % 128) repr (groups k (i / 128) ++ rest) (omega arith)
              (omega arith) first,
        )
        (decode_groups k (s + 7) (2 ^ s * (i % 128) + index) (i / 128) repr rest (omega arith)
            (omega arith) all
          ∙ ap (λ n. decoded (repr, n) rest) split)
  | inr small ↦ rw small (decode_last s index i repr rest (ground arith) (omega arith) b)
]

from_u8-bits : (p : PrefixBit) → from_u8 (bits p) ≡ p
unfolding from_u8 bits
from_u8-bits PrefixBit.indexed = refl
from_u8-bits _ = refl

-- A first byte that holds all of `i`, as the decoder reads it: its prefix and its value.
short_in_order : PrefixBit → ℕ → Bool
short_in_order repr i =
    let byte = bit_or (bits repr) (i % 256) in
    leb (prefix_index_mask repr) i
    || (bits (from_u8 byte) == bits repr && bit_and byte (prefix_index_mask repr) == i)

shorts_in_order : (repr : PrefixBit) → passes (short_in_order repr) 128 ≡ true
unfolding passes short_in_order from_u8 bits prefix_index_mask
shorts_in_order PrefixBit.indexed = refl
shorts_in_order _ = refl

mask_small : (repr : PrefixBit) → prefix_index_mask repr < 128
unfolding prefix_index_mask
mask_small PrefixBit.indexed = omega arith
mask_small _ = omega arith

short_byte :
    (repr : PrefixBit) (i : ℕ)
    → i < prefix_index_mask repr
    → (from_u8 (bit_or (bits repr) (i % 256)) ≡ repr)
      × (bit_and (bit_or (bits repr) (i % 256)) (prefix_index_mask repr) ≡ i)
short_byte repr i h =
    let mask = mask_small repr in
    let table = passes_at (short_in_order repr) i 128 (omega arith) (shorts_in_order repr) in
    let past : leb (prefix_index_mask repr) i ≡ false = ground arith in
    let byte = bit_or (bits repr) (i % 256) in
    let split : (bits (from_u8 byte) == bits repr && bit_and byte (prefix_index_mask repr) == i)
        ≡ true =
      unfold short_in_order in rw past at table in
    let prefix : bits (from_u8 byte) ≡ bits repr = ground arith in
    (sym (from_u8-bits (from_u8 byte)) ∙ ap from_u8 prefix ∙ from_u8-bits repr, ground arith)

long_byte :
    (repr : PrefixBit)
    → (from_u8 (bit_or (bits repr) (prefix_index_mask repr)) ≡ repr)
      × (bit_and (bit_or (bits repr) (prefix_index_mask repr)) (prefix_index_mask repr)
          ≡ prefix_index_mask repr)
unfolding from_u8 bits prefix_index_mask
long_byte PrefixBit.indexed = (refl, refl)
long_byte _ = (refl, refl)

encode_short :
    (repr : PrefixBit) (i room : ℕ)
    → i < prefix_index_mask repr
    → (encode (suc room) (new i (prefix_index_mask repr) (bits repr))).0
      ≡ bit_or (bits repr) (i % 256) ∷ []
encode_short repr i room h =
    let mask = prefix_index_mask repr in
    let test : ltb i mask ≡ true = ground arith in
    encode_write room (new i mask (bits repr))
      (record { i = i; mask = mask; pre = bits repr; state = finish }) _
      (first_short i mask (bits repr) h)
    ∙ ap (λ bytes. bit_or (bits repr) (i % 256) ∷ bytes) (finished room i mask (bits repr))

encode_long :
    (repr : PrefixBit) (i room : ℕ)
    → i < usize_mod
    → prefix_index_mask repr ≤ i
    → 9 < room
    → (encode (suc room) (new i (prefix_index_mask repr) (bits repr))).0
      ≡ bit_or (bits repr) (prefix_index_mask repr) ∷ groups 9 (i - prefix_index_mask repr)
encode_long repr i room h le r =
    let mask = prefix_index_mask repr in
    encode_write room (new i mask (bits repr)) (at_other (i - mask) mask (bits repr)) _
      (first_long i mask (bits repr) le)
    ∙ ap (λ bytes. bit_or (bits repr) mask ∷ bytes)
        (encode-groups 9 room (i - mask) mask (bits repr) (omega arith) r)

decode_short :
    (repr : PrefixBit) (i : ℕ) (rest : List ℕ)
    → i < prefix_index_mask repr
    → decode_index_inner at_first_byte (bit_or (bits repr) (i % 256) ∷ rest)
      ≡ decoded (repr, i) rest
unfolding decode_index_inner decode_first_byte first_byte
decode_short repr i rest h =
    let (prefix, value) = short_byte repr i h in
    let test : ltb i (prefix_index_mask repr) ≡ true = ground arith in
    rw (decode_index_inner, decode_first_byte, prefix, first_byte, value, test)
      (ap (λ p. decoded (p, i) rest) prefix)

decode_long :
    (repr : PrefixBit) (rest : List ℕ)
    → decode_index_inner at_first_byte (bit_or (bits repr) (prefix_index_mask repr) ∷ rest)
      ≡ decode_trailing repr (at_shift 0 (prefix_index_mask repr)) rest
unfolding decode_index_inner decode_first_byte first_byte
decode_long repr rest =
    let (prefix, value) = long_byte repr in
    let test : ltb (prefix_index_mask repr) (prefix_index_mask repr) ≡ false = ground arith in
    rw (decode_index_inner, decode_first_byte, prefix, first_byte, value, test)
      (ap (λ p. decode_trailing p (at_shift 0 (prefix_index_mask repr)) rest) prefix)

-- The index that `Integer::encode` writes after a prefix, in a room of at least 11 bytes, the decoder of
-- a representation's start reads back with its prefix, and leaves what follows, for each prefix and each
-- 64-bit number.
pub decode-encode :
    (repr : PrefixBit) (i room : ℕ) (rest : List ℕ)
    → i < usize_mod
    → 11 ≤ room
    → decode_index_inner at_first_byte
        ((encode room (new i (prefix_index_mask repr) (bits repr))).0 ++ rest)
      ≡ decoded (repr, i) rest
decode-encode repr i zero rest h r = absurd (omega arith)
decode-encode repr i (suc room) rest h r = elim (Bool-cases (ltb i (prefix_index_mask repr))) [
  | inl short ↦
      let small : i < prefix_index_mask repr = ground arith in
      rw (encode_short repr i room small) (decode_short repr i rest small)
  | inr long ↦
      let large : prefix_index_mask repr ≤ i = ground arith in
      let mask = prefix_index_mask repr in
      let total : 2 ^ 0 * (i - mask) + mask ≡ i = omega arith in
      rw (encode_long repr i room h large (omega arith), decode_long repr)
        (decode_groups 9 0 mask (i - mask) repr rest (omega arith) (omega arith) (omega arith)
          ∙ ap (λ n. decoded (repr, n) rest) total)
]

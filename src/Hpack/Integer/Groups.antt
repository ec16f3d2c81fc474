-- ===== src/Hpack/Integer/Groups.antt =====
-- The bytes after the first: what the encoder writes, and what the decoder adds up.
use Prim.Native.Nat.{bit_and, bit_or}
use native.Mathlib.Nat.{pow-suc, mod-eq_of_lt, pow-le-pow_right}
use commonlibrary_rust_ylong.Common.{
  ℕ, zero, suc, ◌+◌, ◌-◌, ◌*◌, ◌/◌, ◌%◌, ◌^◌, ◌≤◌, ◌<◌, ◌≡◌, refl, ap, ◌∙◌, Option, none, some, inl,
  inr, List, [], ◌∷◌, true, false, Bool-cases, ltb, leb, ◌==◌, if◌then◌else◌, arith,
}
use commonlibrary_rust_ylong.Common.Bits.{top_bit, set_top_bit}
use commonlibrary_rust_ylong.Common.Masks.{bit_and-ones}
use commonlibrary_rust_ylong.Common.Result.{ok, usize_mod}
use commonlibrary_rust_ylong.Hpack.Integer.{
  IntegerDecoder, next_byte, accumulate, IntegerEncoder, new, other, finish, encode_byte,
  encoder_next_byte, encode,
}

-- A plain account of the bytes after the first, for a rest below 128 ^ (k + 1).
abbrev pub groups : ℕ → ℕ → List ℕ
groups zero i = i ∷ []
groups (suc k) i = if leb 128 i then (i % 128 + 128) ∷ groups k (i / 128) else i ∷ []

low_group : (i : ℕ) → bit_and i 0x7f ≡ i % 128
low_group i = bit_and-ones 7 i

abbrev pub at_other : ℕ → ℕ → ℕ → IntegerEncoder
at_other i mask pre = record { i = i; mask = mask; pre = pre; state = other }

pub finished :
    (room i mask pre : ℕ)
    → (encode room (record { i = i; mask = mask; pre = pre; state = finish })).0 ≡ []
unfolding encode encode_byte
finished zero i mask pre = refl
finished (suc room) i mask pre = refl

pub encode_write :
    (room : ℕ) (e next : IntegerEncoder) (b : ℕ)
    → encoder_next_byte e ≡ (some b, next)
    → (encode (suc room) e).0 ≡ b ∷ (encode room next).0
unfolding encode
encode_write room e next b h =
    rw (encode, h) (ap (λ (r : Option ℕ × IntegerEncoder). b ∷ (encode room r.1).0) h)

last_byte :
    (i mask pre : ℕ)
    → i < 128
    → encoder_next_byte (at_other i mask pre)
      ≡ (some i, record { i = i; mask = mask; pre = pre; state = finish })
unfolding encoder_next_byte encode_byte
last_byte i mask pre h =
    let small : leb 128 i ≡ false = ground arith in
    let byte : i % 128 % 256 ≡ i = omega arith in rw (encoder_next_byte, small, low_group i, byte)

last_group : (room i mask pre : ℕ) → i < 128 → (encode (suc room) (at_other i mask pre)).0 ≡ i ∷ []
last_group room i mask pre h =
    encode_write room (at_other i mask pre) _ i (last_byte i mask pre h)
    ∙ ap (λ bytes. i ∷ bytes) (finished room i mask pre)

more_byte :
    (i mask pre : ℕ)
    → 128 ≤ i
    → encoder_next_byte (at_other i mask pre) ≡ (some (i % 128 + 128), at_other (i / 128) mask pre)
unfolding encoder_next_byte encode_byte
more_byte i mask pre h =
    let large : leb 128 i ≡ true = ground arith in
    let byte : i % 128 % 256 ≡ i % 128 = omega arith in
    rw (encoder_next_byte, large, low_group i, byte, set_top_bit (i % 128) (omega arith))

pub encode-groups :
    (k room i mask pre : ℕ)
    → i < 128 ^ suc k
    → k < room
    → (encode room (at_other i mask pre)).0 ≡ groups k i
encode-groups k zero i mask pre h r = absurd (omega arith)
encode-groups zero (suc room) i mask pre h r = last_group room i mask pre (omega arith)
encode-groups (suc k) (suc room) i mask pre h r = elim (Bool-cases (leb 128 i)) [
  | inl large ↦
      let below : i < 128 ^ suc k * 128 = rw (← pow-suc 128 (suc k)) h in
      rw (large, encode_write room (at_other i mask pre) _ _ (more_byte i mask pre (ground arith)))
        (ap (λ bytes. (i % 128 + 128) ∷ bytes)
          (encode-groups k room (i / 128) mask pre (omega arith) (omega arith)))
  | inr small ↦ rw small (last_group room i mask pre (ground arith))
]

-- One byte of the decoder, where nothing overflows.
accumulate_lem :
    (s index byte : ℕ)
    → s < 64
    → 2 ^ s * (byte % 128) + index < usize_mod
    → accumulate (record { index = index; shift = suc s }) byte
      ≡ some (2 ^ s * (byte % 128) + index)
accumulate_lem s index byte h b =
    let power : 2 ^ s < 2 ^ 64 =
      let most : 2 ^ s ≤ 2 ^ 63 = pow-le-pow_right (omega arith) {j = 63} (omega arith) in
      omega arith in
    let low : ltb (suc s - 1) 64 ≡ true = ground arith in
    let one_less : suc s - 1 ≡ s = omega arith in
    let one : 1 * 2 ^ (suc s - 1) % usize_mod ≡ 2 ^ s =
      ap (λ n. 1 * 2 ^ n % usize_mod) one_less
      ∙ ap (λ x. x % usize_mod) (omega arith)
      ∙ mod-eq_of_lt power in
    let product : ltb (2 ^ s * (byte % 128)) usize_mod ≡ true = ground arith in
    let sum : ltb (2 ^ s * (byte % 128) + index) usize_mod ≡ true = ground arith in
    rw (accumulate, low, one, low_group byte, product, sum)

abbrev pub at_shift : ℕ → ℕ → IntegerDecoder
at_shift s index = record { index = index; shift = suc s }

pub next_byte_lem :
    (s index byte : ℕ)
    → s < 64
    → byte < 256
    → 2 ^ s * (byte % 128) + index < usize_mod
    → next_byte (at_shift s index) byte ≡ (
      ok (if ltb byte 128 then some (2 ^ s * (byte % 128) + index) else none),
      at_shift (s + 7) (2 ^ s * (byte % 128) + index),
    )
unfolding next_byte
next_byte_lem s index byte h small b =
    let sum = 2 ^ s * (byte % 128) + index in
    let high : (byte / 128 * 128 == 0) ≡ ltb byte 128 = ground arith in
    rw (next_byte, accumulate_lem s index byte h b, top_bit byte small, high)
      (ap (λ n. (ok (if ltb byte 128 then some sum else none), record { index = sum; shift = n }))
        (omega arith))

pub first_short :
    (i mask pre : ℕ)
    → i < mask
    → encoder_next_byte (new i mask pre)
      ≡ (some (bit_or pre (i % 256)), record { i = i; mask = mask; pre = pre; state = finish })
unfolding encoder_next_byte encode_byte new
first_short i mask pre h = let test : ltb i mask ≡ true = ground arith in rw test

pub first_long :
    (i mask pre : ℕ)
    → mask ≤ i
    → encoder_next_byte (new i mask pre) ≡ (some (bit_or pre mask), at_other (i - mask) mask pre)
unfolding encoder_next_byte encode_byte new
first_long i mask pre h = let test : ltb i mask ≡ false = ground arith in rw test

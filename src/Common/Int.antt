-- ===== src/Common/Int.antt =====
-- Signed integers over the native numbers, and the 32-bit two's complement that Rust's `i32` has.
use Prim.Native.Nat.{ℕ, suc, ◌+◌, ◌-◌, ◌%◌, ◌^◌, ◌≤◌, ◌<◌}
use mathlib.Core.Path.{◌≡◌}
use mathlib.Core.Bool.{Bool}
use native.Mathlib.Omega.{arith}
use commonlibrary_rust_ylong.Common.Tests.{ltb, leb, if◌then◌else◌}

-- `negsuc n` is -(n + 1).
pub data ℤ : Type 0 where
  pos : ℕ → ℤ
  negsuc : ℕ → ℤ

abbrev pub pos_part : ℤ → ℕ
pos_part (pos n) = n
pos_part (negsuc n) = 0

abbrev pub neg_part : ℤ → ℕ
neg_part (pos n) = 0
neg_part (negsuc n) = suc n

-- a - b, as an integer.
abbrev pub sub_ℕ : ℕ → ℕ → ℤ
sub_ℕ a b = if leb b a then pos (a - b) else negsuc (b - a - 1)

infixl 65 ◌+ℤ◌ ◌-ℤ◌
infix 50 ◌≤ℤ◌
unfoldable pub ◌+ℤ◌ : ℤ → ℤ → ℤ
a +ℤ b = sub_ℕ (pos_part a + pos_part b) (neg_part a + neg_part b)

unfoldable pub ◌-ℤ◌ : ℤ → ℤ → ℤ
a -ℤ b = sub_ℕ (pos_part a + neg_part b) (neg_part a + pos_part b)

abbrev pub ◌≤ℤ◌ : ℤ → ℤ → Type 0
a ≤ℤ b = pos_part a + neg_part b ≤ pos_part b + neg_part a

abbrev pub leb_ℤ : ℤ → ℤ → Bool
leb_ℤ a b = leb (pos_part a + neg_part b) (pos_part b + neg_part a)

-- The integers that an `i32` holds.
abbrev pub IsI32 : ℤ → Type 0
IsI32 a = (pos_part a < 2 ^ 31) × (neg_part a ≤ 2 ^ 31)

-- `x as i32` for a `u32` x.
unfoldable pub as_i32 : ℕ → ℤ
as_i32 x = if ltb x (2 ^ 31) then pos x else negsuc (2 ^ 32 - x - 1)

-- The `i32` that an exact result wraps to.
unfoldable pub wrap_i32 : ℤ → ℤ
unfolding as_i32
wrap_i32 (pos n) = as_i32 (n % 2 ^ 32)
wrap_i32 (negsuc n) = as_i32 (2 ^ 32 - 1 - n % 2 ^ 32)

-- `x as u32` for an `i32` x.
unfoldable pub as_u32 : ℤ → ℕ
as_u32 (pos n) = n
as_u32 (negsuc n) = 2 ^ 32 - 1 - n

pub as_i32_small : (x : ℕ) → x < 2 ^ 31 → as_i32 x ≡ pos x
unfolding as_i32
as_i32_small x h = ground arith

pub as_i32-IsI32 : (x : ℕ) → x < 2 ^ 32 → IsI32 (as_i32 x)
unfolding as_i32
as_i32-IsI32 x h = ground arith

pub wrap_i32_id : (a : ℤ) → IsI32 a → wrap_i32 a ≡ a
unfolding wrap_i32
wrap_i32_id (pos n) h = ground arith
wrap_i32_id (negsuc n) h = ground arith

pub wrap_i32-IsI32 : (a : ℤ) → IsI32 (wrap_i32 a)
wrap_i32-IsI32 (pos n) = unfold wrap_i32 in as_i32-IsI32 (n % 2 ^ 32) (omega arith)
wrap_i32-IsI32 (negsuc n) = unfold wrap_i32 in as_i32-IsI32 (2 ^ 32 - 1 - n % 2 ^ 32) (omega arith)

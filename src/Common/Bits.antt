-- ===== src/Common/Bits.antt =====
-- A test on all numbers below a bound by evaluation, and what it tells of masks and joins on one byte.
use Prim.Native.Nat.{ℕ, zero, suc, ◌+◌, ◌*◌, ◌/◌, ◌<◌, bit_and, bit_or}
use mathlib.Core.Path.{◌≡◌, refl}
use mathlib.Core.Logic.{inl, inr}
use mathlib.Core.Bool.{Bool, true, false}
use native.Mathlib.Omega.{arith}
use commonlibrary_rust_ylong.Common.Tests.{◌==◌, ==_iff, Bool-cases, if◌then◌else◌}

module _ (test : ℕ → Bool) where
  unfoldable pub passes : ℕ → Bool
  passes zero = true
  passes (suc bound) = let smaller = passes bound in if test bound then smaller else false

  pub passes_at : (x bound : ℕ) → x < bound → passes bound ≡ true → test x ≡ true
  unfolding passes
  passes_at x zero below whole = absurd (omega arith)
  passes_at x (suc bound) below whole = elim (Bool-cases (test bound)) [
    | inl good ↦ ground (arith, passes_at x bound)
    | inr bad ↦ absurd (ground arith)
  ]

-- Two functions on bytes that agree on a table do so everywhere.
same_on_table :
    (bound : ℕ) (f g : ℕ → ℕ)
    → passes (λ x. f x == g x) bound ≡ true
    → (x : ℕ) → x < bound
    → f x ≡ g x
same_on_table bound f g whole x below =
    (==_iff (f x) (g x)).0 (passes_at (λ y. f y == g y) x bound below whole)

pub top_bit : (b : ℕ) → b < 256 → bit_and b 0x80 ≡ b / 128 * 128
unfolding passes
top_bit = same_on_table 256 (λ b. bit_and b 0x80) (λ b. b / 128 * 128) refl

pub set_top_bit : (b : ℕ) → b < 128 → bit_or b 0x80 ≡ b + 128
unfolding passes
set_top_bit = same_on_table 128 (λ b. bit_or b 0x80) (λ b. b + 128) refl

pub of_top_bit : (b : ℕ) → b < 256 → bit_and 0x80 b ≡ b / 128 * 128
unfolding passes
of_top_bit = same_on_table 256 (λ b. bit_and 0x80 b) (λ b. b / 128 * 128) refl

-- ===== src/Common/Result.antt =====
-- Rust's `Result` and `usize` with its checked operations.
use Prim.Native.Nat.{ℕ, ◌+◌, ◌*◌, ◌%◌, ◌^◌}
use mathlib.Core.Option.{Option, none, some}
use commonlibrary_rust_ylong.Common.Tests.{ltb, if◌then◌else◌}

pub data Result {ℓ κ} (A : Type ℓ) (E : Type κ) : Type (ℓ ⊔ κ) where
  ok : A → Result A E
  err : E → Result A E

infixl 5 ◌>>=◌
abbrev pub ◌>>=◌ {ℓ κ ι} :
    {A : Type ℓ} {B : Type κ} {E : Type ι} → Result A E → (A → Result B E) → Result B E
ok a >>= f = f a
err e >>= f = err e

abbrev pub and_then {ℓ κ} : {A : Type ℓ} {B : Type κ} → Option A → (A → Option B) → Option B
and_then none f = none
and_then (some a) f = f a

-- A 64-bit `usize`.
abbrev pub usize_mod : ℕ
usize_mod = 2 ^ 64

abbrev pub checked_shl : ℕ → ℕ → Option ℕ
checked_shl x s = if ltb s 64 then some (x * 2 ^ s % usize_mod) else none

abbrev pub checked_mul : ℕ → ℕ → Option ℕ
checked_mul a b = if ltb (a * b) usize_mod then some (a * b) else none

abbrev pub checked_add : ℕ → ℕ → Option ℕ
checked_add a b = if ltb (a + b) usize_mod then some (a + b) else none

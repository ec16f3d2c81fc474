-- ===== src/Common/Masks.antt =====
-- A mask of low ones is a remainder, on numbers of any size.
use Prim.Native.Nat.{
  ℕ, zero, suc, ◌+◌, ◌*◌, ◌/◌, ◌%◌, ◌^◌, ◌≤◌, ◌<◌, min, max, bit_and, bit_or, digits,
  bit_and-bitwise, bit_or-bitwise,
}
use native.Mathlib.Nat.{
  div-add-mod, mul-add-mod_self_right, mod-eq_of_lt, mod-lt, zero-mod, one-le-pow, pow-suc,
}
use mathlib.Core.Path.{◌≡◌, refl, sym, ap, ◌∙◌}
use native.Mathlib.Omega.{arith}

abbrev pub ones : ℕ → ℕ
ones zero = 0
ones (suc k) = ones k * 2 + 1

half_mod : (x m : ℕ) → 0 < m → x / 2 % m * 2 + x % 2 ≡ x % (m * 2)
half_mod x m h =
    let r = x / 2 % m in
    let q = x / 2 / m in
    let whole : m * q + r ≡ x / 2 = div-add-mod (x / 2) m in
    let small : r < m = mod-lt (x / 2) h in
    let split : x ≡ q * (m * 2) + (r * 2 + x % 2) =
      let shuffle : q * (m * 2) ≡ m * q * 2 = grind arith in omega arith in
    sym (
      ap (λ y. y % (m * 2)) split
      ∙ mul-add-mod_self_right q (m * 2) (r * 2 + x % 2)
      ∙ mod-eq_of_lt (omega arith))

digits-zero : (n a : ℕ) → digits (λ b. zero) min n a 0 ≡ 0
digits-zero zero a = refl
digits-zero (suc n) zero = refl
digits-zero (suc n) (suc a) = rw (digits-zero n (suc a / 2)) (omega arith)

digits-ones : (k n a : ℕ) → a ≤ n → digits (λ b. zero) min n a (ones k) ≡ a % 2 ^ k
digits-ones zero n a h = digits-zero n a ∙ omega arith
digits-ones (suc k) zero a h =
    let nil : a ≡ 0 = omega arith in sym (ap (λ x. x % 2 ^ suc k) nil ∙ zero-mod (2 ^ suc k))
digits-ones (suc k) (suc n) zero h = sym (zero-mod (2 ^ suc k))
digits-ones (suc k) (suc n) (suc a) h =
    let half : (ones k * 2 + 1) / 2 ≡ ones k = omega arith in
    let low : (ones k * 2 + 1) % 2 ≡ 1 = omega arith in
    let bit : min (suc a % 2) 1 ≡ suc a % 2 = omega arith in
    rw (half, low, digits-ones k n (suc a / 2) (omega arith), bit)
      (half_mod (suc a) (2 ^ k) (one-le-pow k 2 (omega arith))
        ∙ ap (λ m. suc a % m) (sym (pow-suc 2 k)))

pub bit_and-ones : (k a : ℕ) → bit_and a (ones k) ≡ a % 2 ^ k
bit_and-ones k a = bit_and-bitwise a (ones k) ∙ digits-ones k a a (omega arith)

-- A number and one that fits below its last ones are joined by adding them.
digits-join_zero : (n x : ℕ) → x ≤ n → digits (λ b. b) max n x 0 ≡ x
digits-join_zero zero x h = omega arith
digits-join_zero (suc n) zero h = refl
digits-join_zero (suc n) (suc x) h =
    let bit : max (suc x % 2) 0 ≡ suc x % 2 = omega arith in
    rw (digits-join_zero n (suc x / 2) (omega arith), bit) (omega arith)

digits-join :
    (k n x a b : ℕ) → x ≡ a * 2 ^ k → x ≤ n → b < 2 ^ k → digits (λ y. y) max n x b ≡ x + b
digits-join zero n x a b e h s =
    let none_left : b ≡ 0 = omega arith in rw none_left (digits-join_zero n x h ∙ omega arith)
digits-join (suc k) zero x a b e h s = omega arith
digits-join (suc k) (suc n) zero a b e h s = omega arith
digits-join (suc k) (suc n) (suc x) a b e h s =
    let power : 2 ^ suc k ≡ 2 ^ k * 2 = pow-suc 2 k in
    let shuffle : a * (2 ^ k * 2) ≡ a * 2 ^ k * 2 = grind arith in
    let whole : suc x ≡ a * 2 ^ k * 2 = e ∙ ap (λ p. a * p) power ∙ shuffle in
    let half : suc x / 2 ≡ a * 2 ^ k = omega arith in
    let bit : max (suc x % 2) (b % 2) ≡ b % 2 = omega arith in
    rw (digits-join k n (suc x / 2) a (b / 2) half (omega arith) (omega arith), bit) (omega arith)

pub bit_or-join : (k a b : ℕ) → b < 2 ^ k → bit_or (a * 2 ^ k) b ≡ a * 2 ^ k + b
bit_or-join k a b s =
    bit_or-bitwise (a * 2 ^ k) b ∙ digits-join k (a * 2 ^ k) (a * 2 ^ k) a b refl (omega arith) s

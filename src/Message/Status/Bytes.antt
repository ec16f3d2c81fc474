-- ===== src/Message/Status/Bytes.antt =====
-- A status code and its three bytes.
use Prim.Native.Nat.{◌/◌, ◌%◌}
use commonlibrary_rust_ylong.Common.{ℕ, ◌+◌, ◌≤◌, ◌<◌, ◌≡◌, ◌↔◌, List, [], ◌∷◌, All, arith}
use commonlibrary_rust_ylong.Common.Result.{ok}
use commonlibrary_rust_ylong.Message.Status.{StatusCode, digit, of_digits, from_bytes, as_bytes}

-- A byte is the sign of the digit that the code takes from it.
sign : ℕ → ℕ
sign d = (d % 256 + 48) % 256

digit-sign : (b d : ℕ) → d ≤ 9 → b ≡ sign d → digit b ≡ d
unfolding digit sign
digit-sign b d k e = omega arith

sign-digit : (b d : ℕ) → b < 256 → d ≤ 9 → digit b ≡ d → b ≡ sign d
unfolding digit sign
sign-digit b d h k e = omega arith

unfoldable pub IsCode : StatusCode → Type 0
IsCode s = (100 ≤ s.code) × (s.code < 1000)

-- The digits that a code is built from are the code's own.
of_digits_forth :
    (a b c x : ℕ)
    → of_digits a b c ≡ ok (record { code = x })
    → (100 ≤ x) × (x < 1000) × (a ≡ x / 100) × (b ≡ x % 100 / 10) × (c ≡ x % 10)
unfolding of_digits
of_digits_forth a b c x h = ground arith

of_digits_back :
    (x : ℕ)
    → 100 ≤ x
    → x < 1000
    → of_digits (x / 100) (x % 100 / 10) (x % 10) ≡ ok (record { code = x })
unfolding of_digits
of_digits_back x h k = ground arith

module _ (a b c : ℕ) (s : StatusCode) where
  three_forth :
      a < 256
      → b < 256
      → c < 256
      → of_digits (digit a) (digit b) (digit c) ≡ ok s
      → IsCode s × (a ∷ b ∷ c ∷ [] ≡ as_bytes s)
  unfolding sign as_bytes IsCode
  three_forth ha hb hc h =
      let (l, u, ea, eb, ec) = of_digits_forth (digit a) (digit b) (digit c) s.code h in
      let fa = sign-digit a (s.code / 100) ha (omega arith) ea in
      let fb = sign-digit b (s.code % 100 / 10) hb (omega arith) eb in
      let fc = sign-digit c (s.code % 10) hc (omega arith) ec in ((l, u), cc)

  three_back :
      IsCode s → a ∷ b ∷ c ∷ [] ≡ as_bytes s → of_digits (digit a) (digit b) (digit c) ≡ ok s
  unfolding sign as_bytes IsCode
  three_back (l, u) e =
      let ea = digit-sign a (s.code / 100) (omega arith) cc in
      let eb = digit-sign b (s.code % 100 / 10) (omega arith) cc in
      let ec = digit-sign c (s.code % 10) (omega arith) cc in
      rw ea (rw eb (rw ec (of_digits_back s.code l u)))

-- Three bytes are read as a status code just when the code has three digits and these are its bytes,
-- and no other number of bytes is read.
pub from_bytes-as_bytes :
    (bytes : List ℕ) (s : StatusCode)
    → All (λ b. b < 256) bytes
    → (from_bytes bytes ≡ ok s) ↔ (IsCode s × (bytes ≡ as_bytes s))
unfolding from_bytes as_bytes digit of_digits
from_bytes-as_bytes [] s h = ground arith
from_bytes-as_bytes (a ∷ []) s h = ground arith
from_bytes-as_bytes (a ∷ b ∷ []) s h = ground arith
from_bytes-as_bytes (a ∷ b ∷ c ∷ []) s (ha, (hb, (hc, _))) =
    (three_forth a b c s ha hb hc, λ (k, e). three_back a b c s k e)
from_bytes-as_bytes (a ∷ b ∷ c ∷ d ∷ l) s h = ground arith

-- ===== src/Message/Status.antt =====
-- The status codes of ylong_http/src/response/status.rs.
pub mod Bytes
pub mod Classes
pub mod Reason
use Prim.Native.Nat.{ℕ, ◌+◌, ◌*◌, ◌/◌, ◌%◌}
use commonlibrary_rust_ylong.Common.{
  Bool, not, ◌&&◌, ◌||◌, List, [], ◌∷◌, ltb, leb, ◌==◌, if◌then◌else◌,
}
use commonlibrary_rust_ylong.Common.Result.{Result, ok, err}
use commonlibrary_rust_ylong.Headers.{InvalidInput, invalid_input}

-- In the source the field is private, and `as_u16` gives it: a code comes from `from_u16`, `from_bytes` or a
-- constant.
pub record StatusCode : Type 0 where
  pub code : ℕ

unfoldable pub from_u16 : ℕ → Result StatusCode InvalidInput
from_u16 code =
    if not (leb 100 code && ltb code 1000) then err invalid_input else ok (record { code = code })

-- `wrapping_sub(b'0')` on a byte.
digit : ℕ → ℕ
digit b = (b + 208) % 256

-- The code from its three bytes, whose number has been tested.
of_digits : ℕ → ℕ → ℕ → Result StatusCode InvalidInput
of_digits a b c =
    if a == 0 || ltb 9 a || ltb 9 b || ltb 9 c
    then err invalid_input
    else ok (record { code = a * 100 + b * 10 + c })

unfoldable pub from_bytes : List ℕ → Result StatusCode InvalidInput
unfolding of_digits digit
from_bytes (a ∷ b ∷ c ∷ []) = of_digits (digit a) (digit b) (digit c)
from_bytes _ = err invalid_input

unfoldable pub as_bytes : StatusCode → List ℕ
as_bytes s =
    (s.code / 100 % 256 + 48) % 256
    ∷ (s.code % 100 / 10 % 256 + 48) % 256
    ∷ (s.code % 10 % 256 + 48) % 256
    ∷ []

unfoldable pub is_informational : StatusCode → Bool
is_informational s = leb 100 s.code && ltb s.code 200

unfoldable pub is_successful : StatusCode → Bool
is_successful s = leb 200 s.code && ltb s.code 300

unfoldable pub is_redirection : StatusCode → Bool
is_redirection s = leb 300 s.code && ltb s.code 400

unfoldable pub is_client_error : StatusCode → Bool
is_client_error s = leb 400 s.code && ltb s.code 500

unfoldable pub is_server_error : StatusCode → Bool
is_server_error s = leb 500 s.code && ltb s.code 600

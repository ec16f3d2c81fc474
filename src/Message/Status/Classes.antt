-- ===== src/Message/Status/Classes.antt =====
-- The classes of status codes.
use Prim.Native.Nat.{◌/◌, ◌%◌}
use commonlibrary_rust_ylong.Common.{
  ℕ, ◌+◌, ◌≤◌, ◌<◌, ◌≡◌, Bool, false, List, [], ◌∷◌, All, leb, ltb, ◌*◌, ◌==◌, ◌&&◌, arith,
}
use commonlibrary_rust_ylong.Common.Result.{ok}
use commonlibrary_rust_ylong.Message.Status.{
  StatusCode, from_bytes, as_bytes, is_informational, is_successful, is_redirection,
  is_client_error, is_server_error,
}
use commonlibrary_rust_ylong.Message.Status.Bytes.{IsCode, from_bytes-as_bytes}

-- Whether the first byte is the given one.
unfoldable pub begins : ℕ → List ℕ → Bool
begins d [] = false
begins d (b ∷ l) = b == d

-- Within three digits a hundred is told by the first sign.
hundred :
    (x k : ℕ)
    → x < 1000
    → 1 ≤ k
    → k ≤ 5
    → (leb (k * 100) x && ltb x (k * 100 + 100)) ≡ ((x / 100 % 256 + 48) % 256 == 48 + k)
hundred x k h l u = ground arith

-- A code that is read from bytes below 256 is informational, successful, a redirection, an error of the
-- client or one of the server just when the first byte is the sign of 1, 2, 3, 4 or 5.
pub from_bytes-classes :
    (bytes : List ℕ) (s : StatusCode)
    → All (λ b. b < 256) bytes
    → from_bytes bytes ≡ ok s
    → (is_informational s ≡ begins 49 bytes)
      × (is_successful s ≡ begins 50 bytes)
      × (is_redirection s ≡ begins 51 bytes)
      × (is_client_error s ≡ begins 52 bytes)
      × (is_server_error s ≡ begins 53 bytes)
unfolding begins as_bytes IsCode is_informational is_successful is_redirection is_client_error
    is_server_error
from_bytes-classes bytes s h e =
    let (f, _) = from_bytes-as_bytes bytes s h in
    let ((l, u), eq) = f e in
    rw eq (
      hundred s.code 1 u (omega arith) (omega arith),
      hundred s.code 2 u (omega arith) (omega arith),
      hundred s.code 3 u (omega arith) (omega arith),
      hundred s.code 4 u (omega arith) (omega arith),
      hundred s.code 5 u (omega arith) (omega arith),
    )

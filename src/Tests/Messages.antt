-- ===== src/Tests/Messages.antt =====
-- Concrete status codes, methods and versions.
use commonlibrary_rust_ylong.Common.{ℕ, ◌≡◌, ◌↔◌, refl, arith, List, [], ◌∷◌, some}
use commonlibrary_rust_ylong.Common.Result.{ok}
use commonlibrary_rust_ylong.Common.Text.{codes}
use commonlibrary_rust_ylong.Message.Status
use commonlibrary_rust_ylong.Message.Method
use commonlibrary_rust_ylong.Message.Version
use commonlibrary_rust_ylong.Message.Status.{
  StatusCode, from_u16, as_bytes, is_informational, is_successful, is_redirection, is_client_error,
  is_server_error,
}
use commonlibrary_rust_ylong.Message.Status.Bytes.{IsCode, from_bytes-as_bytes}
use commonlibrary_rust_ylong.Message.Status.Classes.{begins, from_bytes-classes}
use commonlibrary_rust_ylong.Message.Status.Reason.{reason}
use commonlibrary_rust_ylong.Message.Method.{post, from_bytes-as_str}
use commonlibrary_rust_ylong.Message.Version.{http1_1, try_from, try_from-as_str}

abbrev not_found : StatusCode
not_found = record { code = 404 }

abbrev not_found_bytes : List ℕ
not_found_bytes = 52 ∷ 48 ∷ 52 ∷ []

from_bytes-as_bytes_example :
    (Status.from_bytes not_found_bytes ≡ ok not_found)
    ↔ (IsCode not_found × (not_found_bytes ≡ as_bytes not_found))
from_bytes-as_bytes_example =
    from_bytes-as_bytes not_found_bytes not_found (omega arith, (omega arith, (omega arith, tt)))

from_bytes-classes_example :
    (is_informational not_found ≡ begins 49 not_found_bytes)
    × (is_successful not_found ≡ begins 50 not_found_bytes)
    × (is_redirection not_found ≡ begins 51 not_found_bytes)
    × (is_client_error not_found ≡ begins 52 not_found_bytes)
    × (is_server_error not_found ≡ begins 53 not_found_bytes)
unfolding Status.from_bytes
from_bytes-classes_example =
    from_bytes-classes not_found_bytes not_found (omega arith, (omega arith, (omega arith, tt)))
      refl

not_found-reason : reason not_found ≡ some (codes "Not Found")
unfolding reason
not_found-reason = refl

from_bytes-as_str_example :
    (Method.from_bytes (codes "POST") ≡ ok post) ↔ (codes "POST" ≡ Method.as_str post)
from_bytes-as_str_example = from_bytes-as_str (codes "POST") post

try_from-as_str_example :
    (try_from (codes "HTTP/1.1") ≡ ok http1_1) ↔ (codes "HTTP/1.1" ≡ Version.as_str http1_1)
try_from-as_str_example = try_from-as_str (codes "HTTP/1.1") http1_1

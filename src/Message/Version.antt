-- ===== src/Message/Version.antt =====
-- The versions of ylong_http/src/version.rs.
use commonlibrary_rust_ylong.Common.{ℕ, ◌≡◌, ◌↔◌, refl, arith, List, if◌then◌else◌}
use commonlibrary_rust_ylong.Common.Result.{Result, ok, err}
use commonlibrary_rust_ylong.Common.Text.{codes, bytes_eq, bytes_eq_iff}
use commonlibrary_rust_ylong.Headers.{InvalidInput, invalid_input}

pub data Version : Type 0 where
  http1_0 http1_1 http2 http3 : Version

unfoldable pub as_str : Version → List ℕ
as_str http1_0 = codes "HTTP/1.0"
as_str http1_1 = codes "HTTP/1.1"
as_str http2 = codes "HTTP/2.0"
as_str http3 = codes "HTTP/3.0"

unfoldable pub try_from : List ℕ → Result Version InvalidInput
try_from str =
    if bytes_eq str (codes "HTTP/1.0")
    then ok http1_0
    else if bytes_eq str (codes "HTTP/1.1")
    then ok http1_1
    else if bytes_eq str (codes "HTTP/2.0")
    then ok http2
    else if bytes_eq str (codes "HTTP/3.0")
    then ok http3
    else err invalid_input

-- A text is read as a version just when it is the text of that version.
pub try_from-as_str : (str : List ℕ) (v : Version) → (try_from str ≡ ok v) ↔ (str ≡ as_str v)
unfolding try_from as_str bytes_eq
try_from-as_str str v = (forth v, λ h. rw h (back v))
  where
    forth : (v : Version) → try_from str ≡ ok v → str ≡ as_str v
    forth http1_0 h = ground (arith, bytes_eq_iff str (codes "HTTP/1.0"))
    forth http1_1 h = ground (arith, bytes_eq_iff str (codes "HTTP/1.1"))
    forth http2 h = ground (arith, bytes_eq_iff str (codes "HTTP/2.0"))
    forth http3 h = ground (arith, bytes_eq_iff str (codes "HTTP/3.0"))

    back : (v : Version) → try_from (as_str v) ≡ ok v
    back http1_0 = refl
    back _ = refl

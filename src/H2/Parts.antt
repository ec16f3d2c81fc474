-- ===== src/H2/Parts.antt =====
-- ylong_http/src/h2/parts.rs and the setters of ylong_http/src/pseudo.rs: the decoded header lines.
use commonlibrary_rust_ylong.Common.{ℕ, Option, none, some, List, []}
use commonlibrary_rust_ylong.Common.Result.{ok, err}
use commonlibrary_rust_ylong.Headers
use commonlibrary_rust_ylong.Headers.{Headers}
use commonlibrary_rust_ylong.Hpack.Table.Header.{
  Header, authority, method, path, scheme, status, other,
}

pub record PseudoHeaders : Type 0 where
  pub authority : Option (List ℕ)
  pub method : Option (List ℕ)
  pub path : Option (List ℕ)
  pub scheme : Option (List ℕ)
  pub status : Option (List ℕ)

pub record Parts : Type 0 where
  pub pseudo : PseudoHeaders
  pub map : Headers

unfoldable pub new : Parts
new = record {
  pseudo = record { authority = none; method = none; path = none; scheme = none; status = none };
  map = [];
}

-- `none` is the panic of `unwrap`, where `append` refuses the name or the value.
unfoldable pub update : Parts → Header → List ℕ → Option Parts
update p authority value = some (record p { pseudo = record p.pseudo { authority = some value } })
update p method value = some (record p { pseudo = record p.pseudo { method = some value } })
update p path value = some (record p { pseudo = record p.pseudo { path = some value } })
update p scheme value = some (record p { pseudo = record p.pseudo { scheme = some value } })
update p status value = some (record p { pseudo = record p.pseudo { status = some value } })
update p (other header) value = elim (Headers.append p.map header value) [
  | ok m ↦ some (record p { map = m })
  | err _ ↦ none
]

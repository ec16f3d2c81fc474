-- ===== src/Hpack/Table/Static.antt =====
-- The static table of ylong_http/src/h2/hpack/table.rs: entries by index, and indices by entry.
use commonlibrary_rust_ylong.Common.{ℕ, Option, none, some, List, ◌&&◌, leb, ◌==◌, if◌then◌else◌}
use commonlibrary_rust_ylong.Common.Text.{codes}
use commonlibrary_rust_ylong.Hpack.Table.Header.{
  Header, authority, method, path, scheme, status, other,
}

-- `StaticTable::header_name`.
unfoldable pub header_name : ℕ → Option Header
header_name i =
    if i == 1
    then some authority
    else if leb 2 i && leb i 3
    then some method
    else if leb 4 i && leb i 5
    then some path
    else if leb 6 i && leb i 7
    then some scheme
    else if leb 8 i && leb i 14
    then some status
    else if i == 15
    then some (other (codes "accept-charset"))
    else if i == 16
    then some (other (codes "accept-encoding"))
    else if i == 17
    then some (other (codes "accept-language"))
    else if i == 18
    then some (other (codes "accept-ranges"))
    else if i == 19
    then some (other (codes "accept"))
    else if i == 20
    then some (other (codes "access-control-allow-origin"))
    else if i == 21
    then some (other (codes "age"))
    else if i == 22
    then some (other (codes "allow"))
    else if i == 23
    then some (other (codes "authorization"))
    else if i == 24
    then some (other (codes "cache-control"))
    else if i == 25
    then some (other (codes "content-disposition"))
    else if i == 26
    then some (other (codes "content-encoding"))
    else if i == 27
    then some (other (codes "content-language"))
    else if i == 28
    then some (other (codes "content-length"))
    else if i == 29
    then some (other (codes "content-location"))
    else if i == 30
    then some (other (codes "content-range"))
    else if i == 31
    then some (other (codes "content-type"))
    else if i == 32
    then some (other (codes "cookie"))
    else if i == 33
    then some (other (codes "date"))
    else if i == 34
    then some (other (codes "etag"))
    else if i == 35
    then some (other (codes "expect"))
    else if i == 36
    then some (other (codes "expires"))
    else if i == 37
    then some (other (codes "from"))
    else if i == 38
    then some (other (codes "host"))
    else if i == 39
    then some (other (codes "if-match"))
    else if i == 40
    then some (other (codes "if-modified-since"))
    else if i == 41
    then some (other (codes "if-none-match"))
    else if i == 42
    then some (other (codes "if-range"))
    else if i == 43
    then some (other (codes "if-unmodified-since"))
    else if i == 44
    then some (other (codes "last-modified"))
    else if i == 45
    then some (other (codes "link"))
    else if i == 46
    then some (other (codes "location"))
    else if i == 47
    then some (other (codes "max-forwards"))
    else if i == 48
    then some (other (codes "proxy-authenticate"))
    else if i == 49
    then some (other (codes "proxy-authorization"))
    else if i == 50
    then some (other (codes "range"))
    else if i == 51
    then some (other (codes "referer"))
    else if i == 52
    then some (other (codes "refresh"))
    else if i == 53
    then some (other (codes "retry-after"))
    else if i == 54
    then some (other (codes "server"))
    else if i == 55
    then some (other (codes "set-cookie"))
    else if i == 56
    then some (other (codes "strict-transport-security"))
    else if i == 57
    then some (other (codes "transfer-encoding"))
    else if i == 58
    then some (other (codes "user-agent"))
    else if i == 59
    then some (other (codes "vary"))
    else if i == 60
    then some (other (codes "via"))
    else if i == 61
    then some (other (codes "www-authenticate"))
    else none

-- `StaticTable::header`.
unfoldable pub header : ℕ → Option (Header × List ℕ)
header i =
    if i == 1
    then some (authority, codes "")
    else if i == 2
    then some (method, codes "GET")
    else if i == 3
    then some (method, codes "POST")
    else if i == 4
    then some (path, codes "/")
    else if i == 5
    then some (path, codes "/index.html")
    else if i == 6
    then some (scheme, codes "http")
    else if i == 7
    then some (scheme, codes "https")
    else if i == 8
    then some (status, codes "200")
    else if i == 9
    then some (status, codes "204")
    else if i == 10
    then some (status, codes "206")
    else if i == 11
    then some (status, codes "304")
    else if i == 12
    then some (status, codes "400")
    else if i == 13
    then some (status, codes "404")
    else if i == 14
    then some (status, codes "500")
    else if i == 15
    then some (other (codes "accept-charset"), codes "")
    else if i == 16
    then some (other (codes "accept-encoding"), codes "gzip, deflate")
    else if i == 17
    then some (other (codes "accept-language"), codes "")
    else if i == 18
    then some (other (codes "accept-ranges"), codes "")
    else if i == 19
    then some (other (codes "accept"), codes "")
    else if i == 20
    then some (other (codes "access-control-allow-origin"), codes "")
    else if i == 21
    then some (other (codes "age"), codes "")
    else if i == 22
    then some (other (codes "allow"), codes "")
    else if i == 23
    then some (other (codes "authorization"), codes "")
    else if i == 24
    then some (other (codes "cache-control"), codes "")
    else if i == 25
    then some (other (codes "content-disposition"), codes "")
    else if i == 26
    then some (other (codes "content-encoding"), codes "")
    else if i == 27
    then some (other (codes "content-language"), codes "")
    else if i == 28
    then some (other (codes "content-length"), codes "")
    else if i == 29
    then some (other (codes "content-location"), codes "")
    else if i == 30
    then some (other (codes "content-range"), codes "")
    else if i == 31
    then some (other (codes "content-type"), codes "")
    else if i == 32
    then some (other (codes "cookie"), codes "")
    else if i == 33
    then some (other (codes "date"), codes "")
    else if i == 34
    then some (other (codes "etag"), codes "")
    else if i == 35
    then some (other (codes "expect"), codes "")
    else if i == 36
    then some (other (codes "expires"), codes "")
    else if i == 37
    then some (other (codes "from"), codes "")
    else if i == 38
    then some (other (codes "host"), codes "")
    else if i == 39
    then some (other (codes "if-match"), codes "")
    else if i == 40
    then some (other (codes "if-modified-since"), codes "")
    else if i == 41
    then some (other (codes "if-none-match"), codes "")
    else if i == 42
    then some (other (codes "if-range"), codes "")
    else if i == 43
    then some (other (codes "if-unmodified-since"), codes "")
    else if i == 44
    then some (other (codes "last-modified"), codes "")
    else if i == 45
    then some (other (codes "link"), codes "")
    else if i == 46
    then some (other (codes "location"), codes "")
    else if i == 47
    then some (other (codes "max-forwards"), codes "")
    else if i == 48
    then some (other (codes "proxy-authenticate"), codes "")
    else if i == 49
    then some (other (codes "proxy-authorization"), codes "")
    else if i == 50
    then some (other (codes "range"), codes "")
    else if i == 51
    then some (other (codes "referer"), codes "")
    else if i == 52
    then some (other (codes "refresh"), codes "")
    else if i == 53
    then some (other (codes "retry-after"), codes "")
    else if i == 54
    then some (other (codes "server"), codes "")
    else if i == 55
    then some (other (codes "set-cookie"), codes "")
    else if i == 56
    then some (other (codes "strict-transport-security"), codes "")
    else if i == 57
    then some (other (codes "transfer-encoding"), codes "")
    else if i == 58
    then some (other (codes "user-agent"), codes "")
    else if i == 59
    then some (other (codes "vary"), codes "")
    else if i == 60
    then some (other (codes "via"), codes "")
    else if i == 61
    then some (other (codes "www-authenticate"), codes "")
    else none

-- ===== src/Tests.antt =====
-- Concrete inputs: header blocks of RFC 7541 appendix C, small tables and maps, each property once.
mod Frames
mod Encoding
mod Messages
use commonlibrary_rust_ylong.Common.{
  ℕ, ◌+◌, ◌≤◌, ◌≡◌, ◌≢◌, ◌↔◌, ◌⊎◌, refl, none, some, List, [], ◌∷◌, ◌++◌, false, if◌then◌else◌,
  arith,
}
use Prim.Native.Nat.{min}
use commonlibrary_rust_ylong.Common.{true, ◌-◌, ◌*◌, ◌^◌, ltb, length}
use commonlibrary_rust_ylong.Common.Int.{pos}
use commonlibrary_rust_ylong.Client.Window
use commonlibrary_rust_ylong.Client.Window.{check_window_update}
use commonlibrary_rust_ylong.Client.Window.Update.{
  window, check_window_update-recv_data, check_window_update_starves,
}
use commonlibrary_rust_ylong.Client.Streams.{
  H2StreamState, ActiveState, Parameters, Stream, Streams, send_headers_frame, send_data_frame,
  recv_headers, recv_data, try_consume_pending_concurrency,
}
use commonlibrary_rust_ylong.Client.Streams.Lifecycle.{
  frame, local, remote, headers_kind, data_kind, Follows, frames-Follow,
}
use commonlibrary_rust_ylong.Common.{◌%◌}
use commonlibrary_rust_ylong.Client.Streams.{
  stream_at, CloseReason, send_local_reset, recv_remote_reset,
}
use commonlibrary_rust_ylong.Client.Streams.Exchange.{in_state, exchange, all_ok, exchange_lem}
use commonlibrary_rust_ylong.Client.Streams.Reset.{Resets, reset_lem}
use commonlibrary_rust_ylong.Client.Streams.Concurrency.{
  started, try_consume_pending_concurrency_lem,
}
use commonlibrary_rust_ylong.Common.Result.{ok, err, ◌>>=◌}
use commonlibrary_rust_ylong.Common.Text.{codes, bytes_eq}
use commonlibrary_rust_ylong.H2.Error.{flow_control_error, try_from, into_code, try_from-into_code}
use commonlibrary_rust_ylong.Huffman
use commonlibrary_rust_ylong.Huffman.Resume.{decode_pieces}
use commonlibrary_rust_ylong.Headers
use commonlibrary_rust_ylong.Headers.{
  HeaderValue, Headers, invalid_input, normalize, value_from_bytes,
}
use commonlibrary_rust_ylong.Common.{map}
use commonlibrary_rust_ylong.Headers.Names.{IsName, to_lower, normalize_lem}
use commonlibrary_rust_ylong.Headers.Laws.{get-append, get-insert, get-remove, IsUnique, appended}
use commonlibrary_rust_ylong.Hpack.Integer
use commonlibrary_rust_ylong.Hpack.Table.Header.{
  Header, len, header_eq, path, other, header_at, name_at, entry_size,
}
use commonlibrary_rust_ylong.Hpack.Table.StaticIndex.{static_index}
use commonlibrary_rust_ylong.Hpack.Table.StaticIndex.Sound.{StaticNames, static_index-StaticNames}
use commonlibrary_rust_ylong.Hpack.Table.Dynamic
use commonlibrary_rust_ylong.Hpack.Table.Dynamic.{DynamicTable, search_header, search_index}
use commonlibrary_rust_ylong.Hpack.Table.Dynamic.Eviction.{
  IsValid, fitting, total, update-fitting, update_size-fitting, DynamicTable-IsValid,
  search_header-update,
}
use commonlibrary_rust_ylong.Hpack.Table.Search.{
  Reads, search_index-Reads, search_index_other_value,
}
use commonlibrary_rust_ylong.Hpack.Repr.Prefix.{
  PrefixBit, Name, Representation, prefix_index_mask, bits,
}
use commonlibrary_rust_ylong.Hpack.Repr.Decoder.{
  at_index, at_first_byte, decoded, decode_state, decode_index_inner,
}
use commonlibrary_rust_ylong.Hpack.Repr.Decoder.Strings.{resume}
use commonlibrary_rust_ylong.Hpack.Repr.Decoder.Resume.{decode_state-append}
use commonlibrary_rust_ylong.Hpack.Repr.Decoder.RoundTrip.{decode-encode}
use commonlibrary_rust_ylong.H2.Fate.{panicked}
use commonlibrary_rust_ylong.Hpack.Decoder.{HpackDecoder, with_max_size, update, decode}
use commonlibrary_rust_ylong.Hpack.Decoder.Pieces.{feed, decode-append}
use commonlibrary_rust_ylong.Hpack.Decoder.Panic.{update_bad_name}
use commonlibrary_rust_ylong.Hpack.Decoder.Total.{IsGood, LeavesDecoder, decode-ends}

-- RFC 7541 C.2.1, `custom-key: custom-header`, cut within the name.
abbrev block_start : List ℕ
block_start = 0x40 ∷ 0x0a ∷ codes "custom"

abbrev block_end : List ℕ
block_end = codes "-key" ++ 0x0d ∷ codes "custom-header"

abbrev decoder : HpackDecoder
decoder = with_max_size 4096 16384

decode-append_example :
    decode decoder (block_start ++ block_end) ≡ feed (decode decoder block_start) block_end
decode-append_example = decode-append decoder block_start block_end

decoder-IsGood : IsGood decoder.core
unfolding with_max_size Dynamic.with_max_size
decoder-IsGood = record {
  table = record { counted = refl; bounded = omega arith };
  size = omega arith;
}

decode-ends_example : LeavesDecoder (decode decoder block_start)
decode-ends_example = decode-ends decoder block_start decoder-IsGood

decode_state-append_example :
    decode_state (at_index at_first_byte) (block_start ++ block_end)
    ≡ resume decode_state (decode_state (at_index at_first_byte) block_start) block_end
decode_state-append_example = decode_state-append (at_index at_first_byte) block_start block_end

-- RFC 7541 C.1.2, 1337 after a prefix of five bits.
decode-encode_example :
    decode_index_inner at_first_byte (
      (Integer.encode 16
        (Integer.new 1337 (prefix_index_mask PrefixBit.size_update) (bits PrefixBit.size_update))).0
      ++ block_end)
    ≡ decoded (PrefixBit.size_update, 1337) block_end
decode-encode_example =
    decode-encode PrefixBit.size_update 1337 16 block_end (omega arith) (omega arith)

abbrev custom : Header
custom = other (codes "custom-key")

abbrev entry_a : Header × List ℕ
entry_a = (custom, codes "a")

-- A table of 43 bytes in room for 80.
abbrev table : DynamicTable
table = record { queue = entry_a ∷ []; curr_size = 43; max_size = 80 }

table-IsValid : IsValid table
unfolding len
table-IsValid = record { counted = refl; bounded = omega arith }

update-fitting_example : Dynamic.update table path (codes "/x") ≡ record {
  queue = fitting 80 ((path, codes "/x") ∷ table.queue);
  curr_size = total (fitting 80 ((path, codes "/x") ∷ table.queue));
  max_size = 80;
}
update-fitting_example = update-fitting table path (codes "/x") table-IsValid

update_size-fitting_example : Dynamic.update_size table 42 ≡ record {
  queue = fitting 42 table.queue;
  curr_size = total (fitting 42 table.queue);
  max_size = 42;
}
update_size-fitting_example = update_size-fitting table 42 table-IsValid

DynamicTable-IsValid_example :
    IsValid (Dynamic.with_max_size 42)
    × IsValid (Dynamic.update table path (codes "/x"))
    × IsValid (Dynamic.update_size table 42)
DynamicTable-IsValid_example = DynamicTable-IsValid table path (codes "/x") 42 table-IsValid

path_fits : entry_size (path, codes "/x") ≤ 80
unfolding len
path_fits = omega arith

search_header-update_example :
    (search_header (Dynamic.update table path (codes "/x")) 62 ≡ some (path, codes "/x"))
    × ((search_header (Dynamic.update table path (codes "/x")) (63 + 0)
          ≡ search_header table (62 + 0))
        ⊎ (search_header (Dynamic.update table path (codes "/x")) (63 + 0) ≡ none))
search_header-update_example =
    search_header-update table path (codes "/x") 0 table-IsValid path_fits

search_index-Reads_example : Reads table custom (codes "a") (search_index table custom (codes "a"))
search_index-Reads_example = search_index-Reads table custom (codes "a")

static_none : static_index custom (codes "b") ≡ none
unfolding static_index bytes_eq
static_none = refl

dynamic_name : Dynamic.index table custom (codes "b") ≡ some (name_at 0)
unfolding Dynamic.index header_eq bytes_eq
dynamic_name = refl

search_index_other_value_example :
    (search_index table custom (codes "b") ≡ some (header_at 62))
    × (w : List ℕ) × (search_header table 62 ≡ some (custom, w))
    × (w ≢ codes "b")
search_index_other_value_example =
    search_index_other_value table custom (codes "b") 0 static_none dynamic_name

static_index-StaticNames_example : StaticNames path (codes "/x") (static_index path (codes "/x"))
static_index-StaticNames_example = static_index-StaticNames path (codes "/x")

-- RFC 7541 C.4.1, `www.example.com`.
decode_pieces_example :
    (Huffman.decode Huffman.new (0xf1 ∷ 0xe3 ∷ 0xc2 ∷ 0xe5 ∷ []) >>= λ p.
    Huffman.decode p (0xf2 ∷ 0x3a ∷ 0x6b ∷ 0xa0 ∷ 0xab ∷ 0x90 ∷ 0xf4 ∷ 0xff ∷ [])
    >>= Huffman.finish)
    ≡ Huffman.huffman_decode
        ((0xf1 ∷ 0xe3 ∷ 0xc2 ∷ 0xe5 ∷ [])
          ++ (0xf2 ∷ 0x3a ∷ 0x6b ∷ 0xa0 ∷ 0xab ∷ 0x90 ∷ 0xf4 ∷ 0xff ∷ []))
        []
decode_pieces_example =
    decode_pieces (0xf1 ∷ 0xe3 ∷ 0xc2 ∷ 0xe5 ∷ [])
      (0xf2 ∷ 0x3a ∷ 0x6b ∷ 0xa0 ∷ 0xab ∷ 0x90 ∷ 0xf4 ∷ 0xff ∷ [])

abbrev plain : List ℕ → HeaderValue
plain bytes = record { inner = bytes ∷ []; is_sensitive = false }

abbrev headers : Headers
headers = (codes "accept", plain (codes "text/html")) ∷ []

accept_upper : normalize (codes "Accept") ≡ ok (codes "accept")
unfolding normalize
accept_upper = refl

accept_lower : normalize (codes "accept") ≡ ok (codes "accept")
unfolding normalize
accept_lower = refl

bad_name : normalize (codes ":path") ≡ err invalid_input
unfolding normalize
bad_name = refl

json_value : value_from_bytes (codes "text/json") ≡ ok (plain (codes "text/json"))
unfolding value_from_bytes
json_value = refl

normalize_lem_example :
    (normalize (codes "Accept") ≡ ok (codes "accept"))
    ↔ (IsName (codes "Accept") × (codes "accept" ≡ map to_lower (codes "Accept")))
normalize_lem_example =
    normalize_lem (codes "Accept") (codes "accept")
      (omega arith, (omega arith, (omega arith, (omega arith, (omega arith, (omega arith, tt))))))

get-append_example :
    (m' : Headers) × (Headers.append headers (codes "Accept") (codes "text/json") ≡ ok m')
    × (Headers.get m' (codes "accept") ≡ (
        if bytes_eq (codes "accept") (codes "accept")
        then some (appended (Headers.map_get headers (codes "accept")) (codes "text/json"))
        else Headers.get headers (codes "accept")))
get-append_example =
    get-append headers (codes "Accept") (codes "text/json") (codes "accept") (codes "accept")
      (codes "accept") (plain (codes "text/json")) accept_upper json_value accept_lower

get-insert_example :
    (m' : Headers) × (Headers.insert headers (codes "Accept") (codes "text/json")
      ≡ ok (m', Headers.get headers (codes "Accept")))
    × (Headers.get m' (codes "accept") ≡ (
        if bytes_eq (codes "accept") (codes "accept")
        then some (plain (codes "text/json"))
        else Headers.get headers (codes "accept")))
get-insert_example =
    get-insert headers (codes "Accept") (codes "text/json") (codes "accept") (codes "accept")
      (codes "accept") (plain (codes "text/json")) accept_upper json_value accept_lower

get-remove_example :
    ((Headers.remove headers (codes "Accept")).1 ≡ Headers.get headers (codes "Accept"))
    × IsUnique (Headers.remove headers (codes "Accept")).0
    × (Headers.get (Headers.remove headers (codes "Accept")).0 (codes "accept") ≡ (
        if bytes_eq (codes "accept") (codes "accept")
        then none
        else Headers.get headers (codes "accept")))
unfolding Headers.map_get
get-remove_example =
    get-remove headers (codes "Accept") (codes "accept") (codes "accept") (codes "accept")
      (refl, tt) accept_upper accept_lower

try_from-into_code_example :
    (try_from 3 ≡ ok flow_control_error) ↔ (into_code flow_control_error ≡ 3)
try_from-into_code_example = try_from-into_code 3 flow_control_error

path_line_fits : decoder.core.header_size + (5 + 1 + 32) ≤ decoder.core.header_list_size
unfolding with_max_size
path_line_fits = omega arith

-- A decoder that has read nothing, and the line `:path: x` as a literal.
update_bad_name_example :
    ((update
        (Representation.literal_with_indexing (Name.literal (codes ":path")) (codes "x"))
        decoder.core).0
      ≡ panicked)
    × ((update
          (Representation.literal_without_indexing (Name.literal (codes ":path")) (codes "x"))
          decoder.core).0
        ≡ panicked)
    × ((update
          (Representation.literal_never_indexed (Name.literal (codes ":path")) (codes "x"))
          decoder.core).0
        ≡ panicked)
update_bad_name_example =
    update_bad_name decoder.core (codes ":path") (codes "x") bad_name path_line_fits

check_window_update-recv_data_example :
    check_window_update (Window.recv_data (window 1000 1000) 800) ≡ (
      if ltb (1000 - 800) (2 * (1000 - (1000 - 800)))
      then (some (1000 - (1000 - 800)), window 1000 1000)
      else (none, window (1000 - 800) 1000))
check_window_update-recv_data_example =
    check_window_update-recv_data 1000 1000 800 (omega arith) (omega arith) (omega arith)

check_window_update_starves_example :
    check_window_update (window 0 (2 ^ 30)) ≡ (none, window 0 (2 ^ 30))
check_window_update_starves_example =
    check_window_update_starves (2 ^ 30) (omega arith) (omega arith)

-- Frames and bodies without content.
abbrev parameters : Parameters
parameters = record { Frame = Unit; Body = Unit; clear = λ b. b }

abbrev stream_1 : Stream parameters
stream_1 = record {
  recv_window = window 1000 1000;
  send_window = record { size = pos 1000 };
  state = H2StreamState.opened ActiveState.wait_data ActiveState.wait_headers;
  header = none;
  data_ref = tt;
}

abbrev waiting : List ℕ
waiting = 3 ∷ 5 ∷ []

-- Stream 1 is open, 3 and 5 wait, and two may be open.
abbrev streams : Streams parameters
streams = record {
  max_recv_id = 7;
  max_concurrent_streams = 2;
  current_concurrent_streams = 1;
  pending_concurrency = waiting;
  pending_send = 1 ∷ [];
  stream_map = (1, stream_1) ∷ [];
}

frames-Follow_example :
    Follows streams 1 (frame local headers_kind true) (send_headers_frame streams 1 true)
    × Follows streams 1 (frame local data_kind true) (send_data_frame streams 1 true)
    × Follows streams 1 (frame remote headers_kind true) (recv_headers streams 1 true)
    × Follows streams 1 (frame remote data_kind true) (recv_data streams 1 true)
frames-Follow_example = frames-Follow streams 1 true

try_consume_pending_concurrency_lem_example :
    try_consume_pending_concurrency streams ≡ started (min (2 - 1) (length waiting)) waiting streams
try_consume_pending_concurrency_lem_example =
    try_consume_pending_concurrency_lem streams (omega arith)

abbrev idle_streams : Streams parameters
idle_streams = record streams { stream_map = (1, in_state stream_1 H2StreamState.idle) ∷ [] }

stream_there : stream_at idle_streams.stream_map 1 ≡ some (in_state stream_1 H2StreamState.idle)
unfolding stream_at
stream_there = refl

exchange_lem_example :
    ((exchange idle_streams 1).0 ≡ all_ok)
    × (stream_at (exchange idle_streams 1).1.stream_map 1
        ≡ some (in_state stream_1 (H2StreamState.closed CloseReason.end_stream)))
    × ((exchange idle_streams 1).1.current_concurrent_streams ≡ (1 + (2 ^ 32 - 1)) % 2 ^ 32)
exchange_lem_example = exchange_lem idle_streams 1 stream_1 stream_there (omega arith)

reset_lem_example :
    Resets streams 1 CloseReason.local_rst (send_local_reset streams 1)
    × Resets streams 1 CloseReason.remote_rst (recv_remote_reset streams 1)
reset_lem_example = reset_lem streams 1

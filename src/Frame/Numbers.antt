-- ===== src/Frame/Numbers.antt =====
-- ylong_http/src/h2/decoder.rs: the numbers in frames, and one setting.
pub mod Bytes
use Prim.Native.Nat.{bit_and, bit_or}
use commonlibrary_rust_ylong.Common.{
  ℕ, ◌*◌, ◌-◌, ◌^◌, Option, none, some, List, [], ◌∷◌, Bool, true, false, ltb, leb, ◌&&◌, ◌==◌, not,
  if◌then◌else◌,
}
use commonlibrary_rust_ylong.Common.Result.{Result, ok, err}
use commonlibrary_rust_ylong.H2.Error.{
  H2Error, connection_error, protocol_error, flow_control_error,
}
use commonlibrary_rust_ylong.Frame.{
  Setting, header_table_size, enable_push, max_concurrent_streams, initial_window_size,
  max_frame_size, max_header_list_size,
}

-- `get_code_value`.
unfoldable pub get_code_value : ℕ → ℕ → ℕ → ℕ → ℕ
get_code_value a b c d = bit_or (bit_or (bit_or (a * 2 ^ 24) (b * 2 ^ 16)) (c * 2 ^ 8)) d

-- `get_stream_id`, and the increment in decode_window_update_payload.
unfoldable pub get_stream_id : ℕ → ℕ → ℕ → ℕ → ℕ
unfolding get_code_value
get_stream_id a b c d = get_code_value (bit_and a 0x7f) b c d

abbrev pub default_max_frame_size : ℕ
default_max_frame_size = 2 ^ 14

abbrev pub max_allowed_max_frame_size : ℕ
max_allowed_max_frame_size = 2 ^ 24 - 1

unfoldable pub is_frame_size : ℕ → Bool
is_frame_size size = leb default_max_frame_size size && leb size max_allowed_max_frame_size

unfoldable pub get_setting : ℕ → ℕ → Result (Option Setting) H2Error
unfolding is_frame_size
get_setting id value =
    if id == 1
    then ok (some (header_table_size value))
    else if id == 2
    then (if value == 0
        then ok (some (enable_push false))
        else if value == 1
        then ok (some (enable_push true))
        else err (connection_error protocol_error))
    else if id == 3
    then ok (some (max_concurrent_streams value))
    else if id == 4
    then (if ltb (2 ^ 31 - 1) value
        then err (connection_error flow_control_error)
        else ok (some (initial_window_size value)))
    else if id == 5
    then (if not (is_frame_size value)
        then err (connection_error protocol_error)
        else ok (some (max_frame_size value)))
    else if id == 6
    then ok (some (max_header_list_size value))
    else ok none

-- ===== src/Frame.antt =====
-- ylong_http/src/h2/frame.rs: frames, their flags and payloads, and the settings.
pub mod Numbers
pub mod Format
pub mod Handlers
pub mod Encoder
pub mod RoundTrip
pub mod Decoder
use Prim.Native.Nat.{bit_and, bit_or}
use commonlibrary_rust_ylong.Common.{
  ℕ, ◌+◌, ◌*◌, ◌-◌, List, [], ◌∷◌, ◌++◌, Bool, true, false, ◌==◌, if◌then◌else◌, length,
}
use commonlibrary_rust_ylong.H2.Error.{ErrorCode, H2Error, stream_error}
use commonlibrary_rust_ylong.H2.Parts.{Parts}

abbrev pub end_stream_mask : ℕ
end_stream_mask = 0x01

abbrev pub end_headers_mask : ℕ
end_headers_mask = 0x04

abbrev pub padded_mask : ℕ
padded_mask = 0x08

abbrev pub headers_priority_mask : ℕ
headers_priority_mask = 0x20

abbrev pub ack_mask : ℕ
ack_mask = 0x1

-- The settings; an identifier that the code does not know gives none of these.
pub data Setting : Type 0 where
  header_table_size max_concurrent_streams initial_window_size : ℕ → Setting
  max_frame_size max_header_list_size : ℕ → Setting
  enable_push : Bool → Setting

-- `Priority` has `exclusive`, `stream_dependency` and `weight`; `Goaway` the error code, the last stream
-- and the debug data; `PushPromise` the promised stream.
pub data Payload : Type 0 where
  headers : Parts → Payload
  data_bytes : List ℕ → Payload
  priority : Bool → ℕ → ℕ → Payload
  rst_stream : ℕ → Payload
  ping : List ℕ → Payload
  settings : List Setting → Payload
  goaway : ℕ → ℕ → List ℕ → Payload
  window_update : ℕ → Payload
  push_promise : ℕ → Parts → Payload

-- `FrameFlags` is its byte.
pub record Frame : Type 0 where
  pub id : ℕ
  pub flags : ℕ
  pub payload : Payload

pub data FrameType : Type 0 where
  data_type headers_type priority_type rst_stream_type settings_type : FrameType
  push_promise_type ping_type goaway_type window_update_type continuation_type : FrameType

unfoldable pub frame_type : Payload → FrameType
frame_type (headers _) = headers_type
frame_type (data_bytes _) = data_type
frame_type (priority _ _ _) = priority_type
frame_type (ping _) = ping_type
frame_type (rst_stream _) = rst_stream_type
frame_type (settings _) = settings_type
frame_type (goaway _ _ _) = goaway_type
frame_type (window_update _) = window_update_type
frame_type (push_promise _ _) = push_promise_type

-- The test that each of the flag methods makes.
abbrev pub has_flag : ℕ → ℕ → Bool
has_flag mask flags = bit_and mask flags == mask

-- The setters of FrameFlags, with `mask` and `!mask` on a byte.
unfoldable pub set_flag : ℕ → Bool → ℕ → ℕ
set_flag mask true flags = bit_or flags mask
set_flag mask false flags = bit_and flags (255 - mask)

unfoldable pub setting_identifier : Setting → ℕ
setting_identifier (header_table_size _) = 1
setting_identifier (enable_push _) = 2
setting_identifier (max_concurrent_streams _) = 3
setting_identifier (initial_window_size _) = 4
setting_identifier (max_frame_size _) = 5
setting_identifier (max_header_list_size _) = 6

-- `Settings::update_setting`: the first setting with the identifier, or a new one at the end.
pub update_setting : List Setting → Setting → List Setting
unfolding setting_identifier
update_setting [] new = new ∷ []
update_setting (s ∷ rest) new =
    if setting_identifier s == setting_identifier new
    then new ∷ rest
    else s ∷ update_setting rest new

unfoldable pub settings_encoded_len : List Setting → ℕ
settings_encoded_len l = length l * 6

unfoldable pub settings_ack : Frame
settings_ack = record { id = 0; flags = 1; payload = settings [] }

unfoldable pub ping_ack : List ℕ → Frame
ping_ack bytes = record { id = 0; flags = 1; payload = ping bytes }

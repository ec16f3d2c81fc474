-- ===== src/Frame/Format.antt =====
-- The wire format of RFC 9113, section 6, for the frames without a header block and without padding.
use commonlibrary_rust_ylong.Common.{
  ℕ, ◌+◌, ◌^◌, ◌<◌, ◌≤◌, ◌≡◌, ◌⊎◌, List, [], ◌∷◌, ◌++◌, Bool, true, false, length, All,
}
use commonlibrary_rust_ylong.Frame.{
  Setting, header_table_size, max_concurrent_streams, initial_window_size, max_frame_size,
  max_header_list_size, enable_push, Payload, headers, data_bytes, priority, rst_stream, ping,
  settings, goaway, window_update, push_promise, Frame, padded_mask, ack_mask, has_flag,
}
use commonlibrary_rust_ylong.Frame.Numbers.Bytes.{byte_at}
use commonlibrary_rust_ylong.Frame.Handlers.{FrameHeader}

abbrev pub four_bytes : ℕ → List ℕ
four_bytes v = byte_at 24 v ∷ byte_at 16 v ∷ byte_at 8 v ∷ byte_at 0 v ∷ []

abbrev pub header_bytes : FrameHeader → List ℕ
header_bytes h =
    byte_at 16 h.payload_length
    ∷ byte_at 8 h.payload_length
    ∷ byte_at 0 h.payload_length
    ∷ h.frame_type
    ∷ h.flags
    ∷ four_bytes h.stream_id

abbrev pub setting_value : Setting → ℕ
setting_value (header_table_size v) = v
setting_value (enable_push true) = 1
setting_value (enable_push false) = 0
setting_value (max_concurrent_streams v) = v
setting_value (initial_window_size v) = v
setting_value (max_frame_size v) = v
setting_value (max_header_list_size v) = v

-- The identifiers of RFC 9113, section 6.5.2.
unfoldable pub setting_code : Setting → ℕ
setting_code (header_table_size _) = 1
setting_code (enable_push _) = 2
setting_code (max_concurrent_streams _) = 3
setting_code (initial_window_size _) = 4
setting_code (max_frame_size _) = 5
setting_code (max_header_list_size _) = 6

unfoldable pub setting_bytes : Setting → List ℕ
unfolding setting_code
setting_bytes s = 0 ∷ setting_code s ∷ four_bytes (setting_value s)

unfoldable pub settings_bytes : List Setting → List ℕ
unfolding setting_bytes
settings_bytes [] = []
settings_bytes (s ∷ l) = setting_bytes s ++ settings_bytes l

-- The numbers of the types, which are those that the frames are declared with.
unfoldable pub type_code : Payload → ℕ
type_code (data_bytes _) = 0
type_code (headers _) = 1
type_code (priority _ _ _) = 2
type_code (rst_stream _) = 3
type_code (settings _) = 4
type_code (push_promise _ _) = 5
type_code (ping _) = 6
type_code (goaway _ _ _) = 7
type_code (window_update _) = 8

abbrev pub exclusive_bit : Bool → ℕ
exclusive_bit true = 128
exclusive_bit false = 0

unfoldable pub payload_bytes : Payload → List ℕ
unfolding settings_bytes
payload_bytes (data_bytes l) = l
payload_bytes (headers _) = []
payload_bytes (priority exclusive dependency weight) =
    (exclusive_bit exclusive + byte_at 24 dependency)
    ∷ byte_at 16 dependency
    ∷ byte_at 8 dependency
    ∷ byte_at 0 dependency
    ∷ weight
    ∷ []
payload_bytes (rst_stream code) = four_bytes code
payload_bytes (settings l) = settings_bytes l
payload_bytes (push_promise _ _) = []
payload_bytes (ping l) = l
payload_bytes (goaway code last debug) = four_bytes last ++ four_bytes code ++ debug
payload_bytes (window_update increment) = four_bytes increment

unfoldable pub header_for : Frame → FrameHeader
unfolding type_code payload_bytes
header_for frame = record {
  stream_id = frame.id;
  flags = frame.flags;
  frame_type = type_code frame.payload;
  payload_length = length (payload_bytes frame.payload);
}

unfoldable pub frame_bytes : Frame → List ℕ
unfolding header_for payload_bytes
frame_bytes frame = header_bytes (header_for frame) ++ payload_bytes frame.payload

abbrev pub IsSetting : Setting → Type 0
IsSetting (initial_window_size v) = v < 2 ^ 31
IsSetting (max_frame_size v) = (2 ^ 14 ≤ v) × (v < 2 ^ 24)
IsSetting s = setting_value s < 2 ^ 32

-- The fields that the format has room for, on a stream or on the connection as the type wants it.
abbrev pub Carries : Payload → ℕ → ℕ → Type 0
Carries (data_bytes l) id flags = (0 < id) × (has_flag padded_mask flags ≡ false)
Carries (priority exclusive dependency weight) id flags = (0 < id) × (dependency < 2 ^ 31)
Carries (rst_stream code) id flags = (0 < id) × (code < 2 ^ 32)
Carries (settings l) id flags =
    (id ≡ 0) × ((has_flag ack_mask flags ≡ false) ⊎ (length l ≡ 0)) × All IsSetting l
Carries (ping l) id flags = (id ≡ 0) × (length l ≡ 8)
Carries (goaway code last debug) id flags = (id ≡ 0) × (code < 2 ^ 32) × (last < 2 ^ 31)
Carries (window_update increment) id flags = (0 < increment) × (increment < 2 ^ 31)
Carries (headers _) id flags = ⊥
Carries (push_promise _ _) id flags = ⊥

pub record IsPlain (frame : Frame) : Type 0 where
  pub stream : frame.id < 2 ^ 31
  pub length : length (payload_bytes frame.payload) < 2 ^ 24
  pub carries : Carries frame.payload frame.id frame.flags

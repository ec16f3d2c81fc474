-- ===== src/Frame/Encoder.antt =====
-- ylong_http/src/h2/encoder.rs: frames into buffers, but for HEADERS with its CONTINUATION frames.
pub mod Control
pub mod Run
use commonlibrary_rust_ylong.Common.{
  ℕ, zero, suc, ◌+◌, ◌*◌, ◌-◌, ◌/◌, ◌%◌, ◌^◌, min, Option, none, some, List, [], ◌∷◌, ◌++◌, Bool,
  true, false, ltb, leb, ◌&&◌, ◌==◌, if◌then◌else◌, length, get_elem?, take, drop,
}
use Prim.Native.Nat.{bit_and, bit_or}
use commonlibrary_rust_ylong.Common.Result.{Result, ok, err, ◌>>=◌}
use commonlibrary_rust_ylong.Frame
use commonlibrary_rust_ylong.Frame.{
  Setting, header_table_size, max_concurrent_streams, initial_window_size, max_frame_size,
  max_header_list_size, enable_push, Payload, headers, data_bytes, priority, rst_stream, ping,
  settings, goaway, window_update, push_promise, Frame, end_stream_mask, end_headers_mask, has_flag,
}
use commonlibrary_rust_ylong.Frame.Numbers.Bytes.{byte_at}
use commonlibrary_rust_ylong.Frame.Handlers.{FrameHeader}

pub data FrameEncoderErr : Type 0 where
  encoding_data unexpected_payload_type no_current_frame internal_error headers_not_end :
      FrameEncoderErr

-- An error, or a panic at an index or a subtraction. `no_fuel` is no outcome of the program.
pub data Failure : Type 0 where
  failure : FrameEncoderErr → Failure
  panic no_fuel : Failure

pub data EncoderState : Type 0 where
  idle data_complete encoding_data_header encoding_data_payload : EncoderState
  encoding_settings_frame encoding_settings_payload encoding_goaway_frame : EncoderState
  encoding_goaway_payload encoding_window_update_frame encoding_window_update_payload : EncoderState
  encoding_priority_frame encoding_priority_payload encoding_rst_stream_frame : EncoderState
  encoding_rst_stream_payload encoding_ping_frame encoding_ping_payload : EncoderState

-- Derived PartialEq.
unfoldable pub state_number : EncoderState → ℕ
state_number idle = 0
state_number data_complete = 1
state_number encoding_data_header = 2
state_number encoding_data_payload = 3
state_number encoding_settings_frame = 4
state_number encoding_settings_payload = 5
state_number encoding_goaway_frame = 6
state_number encoding_goaway_payload = 7
state_number encoding_window_update_frame = 8
state_number encoding_window_update_payload = 9
state_number encoding_priority_frame = 10
state_number encoding_priority_payload = 11
state_number encoding_rst_stream_frame = 12
state_number encoding_rst_stream_payload = 13
state_number encoding_ping_frame = 14
state_number encoding_ping_payload = 15

pub record FrameEncoder : Type 0 where
  pub current_frame : Option Frame
  pub max_frame_size : ℕ
  pub state : EncoderState
  pub encoded_bytes : ℕ
  pub data_offset : ℕ
  pub remaining_payload_bytes : ℕ
  pub is_end_stream : Bool
  pub is_end_headers : Bool

unfoldable pub new : ℕ → FrameEncoder
new size = record {
  current_frame = none;
  max_frame_size = size;
  state = idle;
  encoded_bytes = 0;
  data_offset = 0;
  remaining_payload_bytes = 0;
  is_end_stream = false;
  is_end_headers = false;
}

abbrev first_state : Payload → EncoderState → EncoderState
first_state (priority _ _ _) st = encoding_priority_frame
first_state (rst_stream _) st = encoding_rst_stream_frame
first_state (ping _) st = encoding_ping_frame
first_state (data_bytes _) st = encoding_data_header
first_state (settings _) st = encoding_settings_frame
first_state (goaway _ _ _) st = encoding_goaway_frame
first_state (window_update _) st = encoding_window_update_frame
first_state (push_promise _ _) st = st
first_state (headers _) st = st

abbrev start_data : Payload → FrameEncoder → FrameEncoder
start_data (data_bytes l) e = record e { data_offset = 0; remaining_payload_bytes = length l }
start_data _ e = e

-- For the frames but HEADERS, where the HPACK encoder comes in.
unfoldable pub set_frame : Frame → FrameEncoder → FrameEncoder
set_frame frame e = start_data frame.payload (record e {
  is_end_stream = has_flag end_stream_mask frame.flags;
  is_end_headers = has_flag end_headers_mask frame.flags;
  current_frame = some frame;
  encoded_bytes = 0;
  state = first_state frame.payload e.state;
})

-- How many bytes a call wrote into its buffer, and the buffer.
abbrev pub Written : Type 0
Written = Result (ℕ × List ℕ) Failure × FrameEncoder

abbrev pub Writer : Type 0
Writer = List ℕ → FrameEncoder → Written

-- A loop over the first bytes of the buffer, which gives the byte at each index.
unfoldable pub fill : ℕ → ℕ → (ℕ → Result ℕ Failure) → List ℕ → Result (List ℕ) Failure
fill zero i byte buf = ok buf
fill (suc n) i byte [] = ok []
fill (suc n) i byte (b ∷ buf) = do x ← byte i; rest ← fill n (suc i) byte buf; ok (x ∷ rest)

-- `frame_header_size - self.encoded_bytes`, or nothing, and no more than the buffer takes.
abbrev pub header_room : List ℕ → FrameEncoder → ℕ
header_room buf e = min (if leb 9 e.encoded_bytes then 0 else 9 - e.encoded_bytes) (length buf)

-- The bytes that a call wrote. Behind the last one the state is `next`, and `kept` bytes count.
unfoldable pub written : ℕ → ℕ → ℕ → EncoderState → Result (List ℕ) Failure → FrameEncoder → Written
written n last kept next (err x) e = (err x, e)
written n last kept next (ok buf) e = (
  ok (n, buf),
  (if e.encoded_bytes + n == last
      then record e { encoded_bytes = kept; state = next }
      else record e { encoded_bytes = e.encoded_bytes + n }),
)

-- The header bytes of all frames but SETTINGS, PING and RST_STREAM.
unfoldable pub header_byte : FrameHeader → ℕ → Result ℕ Failure
header_byte h i =
    if ltb i 3
    then ok (byte_at (16 - 8 * i) h.payload_length)
    else if i == 3
    then ok h.frame_type
    else if i == 4
    then ok h.flags
    else if leb i 8
    then ok (byte_at (24 - 8 * (i - 5)) h.stream_id)
    else err (failure internal_error)

abbrev pub unexpected : Writer
unexpected buf e = (err (failure unexpected_payload_type), e)

-- `try_retrieve_current_frame`.
abbrev pub on_frame : (Frame → Writer) → Writer
on_frame f buf e = elim e.current_frame [
  | none ↦ (err (failure no_current_frame), e)
  | some frame ↦ f frame buf e
]

unfoldable pub update_max_frame_size : ℕ → FrameEncoder → FrameEncoder
update_max_frame_size size e = record e { max_frame_size = size }

abbrev change_settings : Setting → Payload → Payload
change_settings setting (settings l) = settings (Frame.update_setting l setting)
change_settings setting p = p

-- `update_setting`, on the current frame if it is SETTINGS.
pub update_current_setting : Setting → FrameEncoder → FrameEncoder
update_current_setting setting e = elim e.current_frame [
  | none ↦ e
  | some frame ↦ record e {
    current_frame = some (record frame { payload = change_settings setting frame.payload });
  }
]

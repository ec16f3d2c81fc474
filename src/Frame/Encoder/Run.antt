-- ===== src/Frame/Encoder/Run.antt =====
-- ylong_http/src/h2/encoder.rs: DATA frames, and `encode`.
pub mod Filled
pub mod Whole
pub mod Plain
pub mod Encoded
pub mod Large
use commonlibrary_rust_ylong.Common.{
  ℕ, zero, suc, ◌+◌, ◌*◌, ◌-◌, min, Option, none, some, List, [], ◌∷◌, ◌++◌, Bool, true, false, ltb,
  leb, ◌==◌, if◌then◌else◌, length, take, drop,
}
use Prim.Native.Nat.{bit_and}
use commonlibrary_rust_ylong.Common.Result.{Result, ok, err}
use commonlibrary_rust_ylong.Frame.{Payload, data_bytes, Frame}
use commonlibrary_rust_ylong.Frame.Handlers.{FrameHeader}
use commonlibrary_rust_ylong.Frame.Encoder.{
  Failure, panic, no_fuel, EncoderState, idle, data_complete, encoding_data_header,
  encoding_data_payload, encoding_settings_frame, encoding_settings_payload, encoding_goaway_frame,
  encoding_goaway_payload, encoding_window_update_frame, encoding_window_update_payload,
  encoding_priority_frame, encoding_priority_payload, encoding_rst_stream_frame,
  encoding_rst_stream_payload, encoding_ping_frame, encoding_ping_payload, state_number,
  FrameEncoder, Written, Writer, fill, header_room, written, header_byte, unexpected, on_frame,
}
use commonlibrary_rust_ylong.Frame.Encoder.Control.{
  encode_goaway_frame, encode_goaway_payload, encode_window_update_frame,
  encode_window_update_payload, encode_priority_frame, encode_priority_payload,
  encode_rst_stream_frame, encode_rst_stream_payload, encode_ping_frame, encode_ping_payload,
  encode_settings_frame, encode_settings_payload,
}

-- Where more is left than a frame may have, END_STREAM is not set yet.
unfoldable pub data_header : Frame → FrameEncoder → FrameHeader
data_header frame e = record {
  stream_id = frame.id;
  flags =
      if leb e.remaining_payload_bytes e.max_frame_size
      then frame.flags
      else bit_and frame.flags 0xfe;
  frame_type = 0;
  payload_length = min e.remaining_payload_bytes e.max_frame_size;
}

unfoldable pub encode_data_header : Writer
unfolding written fill header_byte data_header
encode_data_header = on_frame λ frame buf e. elim frame.payload [
  | data_bytes l ↦
      let n = header_room buf e in
      written n 9 0 encoding_data_payload
        (fill n e.encoded_bytes (header_byte (data_header frame e)) buf) e
  | _ ↦ unexpected buf e
]

-- The state behind the bytes of a DATA payload.
unfoldable pub after_data : FrameEncoder → FrameEncoder
after_data e =
    if e.remaining_payload_bytes == 0
    then record e { data_offset = 0; state = data_complete }
    else if e.data_offset == e.max_frame_size
    then record e { data_offset = 0; state = encoding_data_header }
    else record e { state = encoding_data_payload }

-- `encode_slice` too, which copies from the offset in the data. The offset does not pass the frame size.
unfoldable pub encode_data_payload : Writer
unfolding after_data
encode_data_payload = on_frame λ frame buf e. elim frame.payload [
  | data_bytes l ↦
      let start = e.data_offset in
      let n = min (min (e.max_frame_size - start) e.remaining_payload_bytes) (length buf) in
      if ltb (length l) (start + n) then (err panic, e) else (
        ok (n, take n (drop start l) ++ drop n buf),
        after_data (record e {
          data_offset = start + n;
          remaining_payload_bytes = e.remaining_payload_bytes - n;
        }),
      )
  | _ ↦ unexpected buf e
]

-- The arms of the `match` in `encode`; in the other states the loop breaks.
unfoldable pub writer_of : EncoderState → Option Writer
unfolding encode_data_header encode_data_payload encode_goaway_frame encode_goaway_payload
    encode_window_update_frame encode_window_update_payload encode_priority_frame
    encode_priority_payload encode_rst_stream_frame encode_rst_stream_payload encode_ping_frame
    encode_ping_payload encode_settings_frame encode_settings_payload
writer_of idle = none
writer_of data_complete = none
writer_of encoding_data_header = some encode_data_header
writer_of encoding_data_payload = some encode_data_payload
writer_of encoding_settings_frame = some encode_settings_frame
writer_of encoding_settings_payload = some encode_settings_payload
writer_of encoding_goaway_frame = some encode_goaway_frame
writer_of encoding_goaway_payload = some encode_goaway_payload
writer_of encoding_window_update_frame = some encode_window_update_frame
writer_of encoding_window_update_payload = some encode_window_update_payload
writer_of encoding_priority_frame = some encode_priority_frame
writer_of encoding_priority_payload = some encode_priority_payload
writer_of encoding_rst_stream_frame = some encode_rst_stream_frame
writer_of encoding_rst_stream_payload = some encode_rst_stream_payload
writer_of encoding_ping_frame = some encode_ping_frame
writer_of encoding_ping_payload = some encode_ping_payload

-- The bytes of this round are followed by those of the rounds behind it.
abbrev pub behind : ℕ → List ℕ → Written → Written
behind n buf (err x, e) = (err x, e)
behind n buf (ok (m, rest), e) = (ok (n + m, take n buf ++ rest), e)

-- What a round of `encode` does with the result of a writer; it breaks where the state is the same.
abbrev pub go_on : Writer → EncoderState → Written → Written
go_on next st (err x, e) = (err x, e)
go_on next st (ok (n, buf), e) =
    if state_number e.state == state_number st
    then (ok (n, buf), e)
    else behind n buf (next (drop n buf) e)

-- A round writes a byte or more, or ends the payload.
unfoldable pub encode_loop : ℕ → Writer
unfolding writer_of state_number
encode_loop zero buf e = (err no_fuel, e)
encode_loop (suc fuel) buf e =
    if length buf == 0 then (ok (0, buf), e) else elim (writer_of e.state) [
      | none ↦ (ok (0, buf), e)
      | some w ↦ go_on (encode_loop fuel) e.state (w buf e)
    ]

unfoldable pub encode : Writer
unfolding encode_loop
encode buf e = encode_loop (2 * length buf + 2) buf e

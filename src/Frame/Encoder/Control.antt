-- ===== src/Frame/Encoder/Control.antt =====
-- ylong_http/src/h2/encoder.rs: the frames but HEADERS and DATA, each a header and a payload.
use commonlibrary_rust_ylong.Common.{
  ℕ, zero, suc, ◌+◌, ◌*◌, ◌-◌, ◌/◌, ◌%◌, ◌^◌, min, Option, none, some, List, [], ◌∷◌, Bool, ltb,
  leb, ◌==◌, if◌then◌else◌, length, get_elem?,
}
use commonlibrary_rust_ylong.Common.Result.{Result, ok, err, ◌>>=◌}
use commonlibrary_rust_ylong.Frame.{
  Setting, priority, rst_stream, ping, settings, goaway, window_update, Frame, header_table_size,
  enable_push, max_concurrent_streams, initial_window_size, max_frame_size, max_header_list_size,
}
use commonlibrary_rust_ylong.Frame.Numbers.Bytes.{byte_at}
use commonlibrary_rust_ylong.Frame.Handlers.{FrameHeader}
use commonlibrary_rust_ylong.Frame.Encoder.{
  internal_error, Failure, failure, panic, EncoderState, data_complete, encoding_settings_payload,
  encoding_goaway_payload, encoding_window_update_payload, encoding_priority_payload,
  encoding_rst_stream_payload, encoding_ping_payload, Writer, fill, header_room, written,
  header_byte, unexpected, on_frame,
}

-- A header that starts at any byte.
abbrev write_header : ℕ → ℕ → EncoderState → Frame → ℕ → Writer
write_header len frame_type next frame kept buf e =
    let n = header_room buf e in
    let h : FrameHeader = record {
      stream_id = frame.id;
      flags = frame.flags;
      frame_type = frame_type;
      payload_length = len;
    } in
    written n 9 kept next (fill n e.encoded_bytes (header_byte h) buf) e

-- `goaway.encoded_len()`.
abbrev goaway_len : List ℕ → ℕ
goaway_len debug = 8 + length debug

unfoldable pub encode_goaway_frame : Writer
unfolding written fill header_byte
encode_goaway_frame = on_frame λ frame. elim frame.payload [
  | goaway code last debug ↦ write_header (goaway_len debug) 7 encoding_goaway_payload frame 9
  | _ ↦ unexpected
]

-- `iterate_goaway_payload`.
unfoldable pub goaway_byte : ℕ → ℕ → List ℕ → ℕ → Result ℕ Failure
goaway_byte code last debug i =
    if ltb i 4
    then ok (byte_at (24 - 8 * i) last)
    else if ltb i 8
    then ok (byte_at (24 - 8 * (i - 4)) code)
    else elim (get_elem? debug (i - 8)) [ some b ↦ ok b | none ↦ err (failure internal_error) ]

-- The index of the first payload byte does not go below 0: the header is written before.
unfoldable pub encode_goaway_payload : Writer
unfolding written fill goaway_byte
encode_goaway_payload = on_frame λ frame buf e. elim frame.payload [
  | goaway code last debug ↦
      let size = goaway_len debug in
      let n = min (size - (e.encoded_bytes - 9)) (length buf) in
      written n (9 + size) (9 + size) data_complete
        (fill n (e.encoded_bytes - 9) (goaway_byte code last debug) buf) e
  | _ ↦ unexpected buf e
]

-- The header counts anew behind its last byte.
unfoldable pub encode_window_update_frame : Writer
unfolding written fill header_byte
encode_window_update_frame = on_frame λ frame. elim frame.payload [
  | window_update increment ↦ write_header 4 8 encoding_window_update_payload frame 0
  | _ ↦ unexpected
]

unfoldable pub encode_window_update_payload : Writer
unfolding written fill
encode_window_update_payload = on_frame λ frame buf e. elim frame.payload [
  | window_update increment ↦
      let n = min (4 - (e.encoded_bytes - 9)) (length buf) in
      written n 4 4 data_complete
        (fill n (e.encoded_bytes - 9) (λ i. ok (byte_at (24 - 8 * i) increment)) buf) e
  | _ ↦ unexpected buf e
]

unfoldable pub encode_priority_frame : Writer
unfolding written fill header_byte
encode_priority_frame = on_frame λ frame. elim frame.payload [
  | priority exclusive dependency weight ↦ write_header 5 2 encoding_priority_payload frame 9
  | _ ↦ unexpected
]

-- `exclusive as u8`, and `v as u32` of a `bool`.
abbrev pub of_bool : Bool → ℕ
of_bool b = if b then 1 else 0

-- `iterate_priority_payload`; the bit of `exclusive` and the 7 bits below it are joined.
unfoldable pub priority_byte : Bool → ℕ → ℕ → ℕ → Result ℕ Failure
priority_byte exclusive dependency weight i =
    if i == 0
    then ok (of_bool exclusive * 2 ^ 7 + byte_at 24 dependency % 128)
    else if ltb i 4
    then ok (byte_at (16 - 8 * (i - 1)) dependency)
    else if i == 4
    then ok weight
    else err (failure internal_error)

unfoldable pub encode_priority_payload : Writer
unfolding written fill priority_byte
encode_priority_payload = on_frame λ frame buf e. elim frame.payload [
  | priority exclusive dependency weight ↦
      let n = min (5 - (e.encoded_bytes - 9)) (length buf) in
      written n 14 14 data_complete
        (fill n (e.encoded_bytes - 9) (priority_byte exclusive dependency weight) buf) e
  | _ ↦ unexpected buf e
]

-- Here the shifts count from the start of the buffer, not of the header.
unfoldable pub rst_stream_byte : Frame → ℕ → ℕ → Result ℕ Failure
rst_stream_byte frame start i =
    let buf_index = i - start in
    if ltb i 3
    then ok (byte_at (16 - 8 * buf_index) 4)
    else if i == 3
    then ok 3
    else if i == 4
    then ok frame.flags
    else if ltb buf_index 5
    then err panic
    else ok (byte_at (24 - 8 * (buf_index - 5)) frame.id)

-- The header of any frame in this state: its payload is not looked at.
unfoldable pub encode_rst_stream_frame : Writer
unfolding written fill rst_stream_byte
encode_rst_stream_frame = on_frame λ frame buf e.
    if leb 9 e.encoded_bytes
    then (ok (0, buf), e)
    else (let n = header_room buf e in
        written n 9 9 encoding_rst_stream_payload
          (fill n e.encoded_bytes (rst_stream_byte frame e.encoded_bytes) buf) e)

unfoldable pub encode_rst_stream_payload : Writer
unfolding written fill
encode_rst_stream_payload = on_frame λ frame buf e. elim frame.payload [
  | rst_stream code ↦
      if ltb e.encoded_bytes 9
      then (ok (0, buf), e)
      else if leb 4 (e.encoded_bytes - 9)
      then (ok (0, buf), e)
      else (let n = min (4 - (e.encoded_bytes - 9)) (length buf) in
          written n 13 13 data_complete
            (fill n (e.encoded_bytes - 9) (λ i. ok (byte_at (24 - 8 * i) code)) buf) e)
  | _ ↦ unexpected buf e
]

unfoldable pub encode_ping_payload : Writer
unfolding written fill
encode_ping_payload = on_frame λ frame buf e. elim frame.payload [
  | ping bytes ↦
      let n = min (8 - (e.encoded_bytes - 9)) (length buf) in
      written n 17 17 data_complete
        (fill n (e.encoded_bytes - 9)
          (λ i. elim (get_elem? bytes i) [ some b ↦ ok b | none ↦ err panic ]) buf)
        e
  | _ ↦ unexpected buf e
]

-- `buf[i] = x`.
unfoldable pub set_byte : List ℕ → ℕ → ℕ → Result (List ℕ) Failure
set_byte [] i x = err panic
set_byte (b ∷ buf) zero x = ok (x ∷ buf)
set_byte (b ∷ buf) (suc i) x = do rest ← set_byte buf i x; ok (b ∷ rest)

-- A loop over `buf_index` that writes where it wants to.
unfoldable pub each_index :
    ℕ → ℕ → (ℕ → List ℕ → Result (List ℕ) Failure) → List ℕ → Result (List ℕ) Failure
each_index zero j step buf = ok buf
each_index (suc n) j step buf = do next ← step j buf; each_index n (suc j) step next

-- `iterate_settings_header` and `iterate_ping_header`: the type and the flags go to the places 3 and 4 of the
-- buffer, wherever the header starts in it, and the stream is 0.
unfoldable pub connection_header : ℕ → ℕ → ℕ → ℕ → ℕ → List ℕ → Result (List ℕ) Failure
unfolding set_byte
connection_header len frame_type flags start j buf =
    let i = start + j in
    if ltb i 3
    then set_byte buf j (byte_at (16 - 8 * j) len)
    else if i == 3
    then set_byte buf 3 frame_type
    else if i == 4
    then set_byte buf 4 flags
    else if leb i 8
    then set_byte buf j 0
    else err (failure internal_error)

unfoldable pub write_connection_header : ℕ → ℕ → EncoderState → Frame → Writer
unfolding connection_header each_index written
write_connection_header len frame_type next frame buf e =
    let n = header_room buf e in
    written n 9 9 next
      (each_index n 0 (connection_header len frame_type frame.flags e.encoded_bytes) buf) e

unfoldable pub encode_ping_frame : Writer
unfolding write_connection_header
encode_ping_frame = on_frame λ frame. elim frame.payload [
  | ping bytes ↦ write_connection_header 8 6 encoding_ping_payload frame
  | _ ↦ unexpected
]

unfoldable pub encode_settings_frame : Writer
unfolding write_connection_header
encode_settings_frame = on_frame λ frame. elim frame.payload [
  | settings l ↦ write_connection_header (length l * 6) 4 encoding_settings_payload frame
  | _ ↦ unexpected
]

-- The match of `iterate_settings_payload`, which gives `id` and `value`.
unfoldable pub id_and_value : Setting → ℕ × ℕ
id_and_value (header_table_size v) = (0x1, v)
id_and_value (enable_push v) = (0x2, of_bool v)
id_and_value (max_concurrent_streams v) = (0x3, v)
id_and_value (initial_window_size v) = (0x4, v)
id_and_value (max_frame_size v) = (0x5, v)
id_and_value (max_header_list_size v) = (0x6, v)

-- Two bytes of the identifier and four of the value.
unfoldable pub setting_byte : Option Setting → ℕ → Result ℕ Failure
unfolding id_and_value
setting_byte none i = err (failure internal_error)
setting_byte (some s) i =
    if ltb i 2
    then ok (byte_at (8 * (1 - i)) (id_and_value s).0)
    else ok (byte_at (8 * (3 - (i - 2))) (id_and_value s).1)

-- `iterate_settings_payload`.
unfoldable pub settings_byte : List Setting → ℕ → Result ℕ Failure
unfolding setting_byte
settings_byte l i = setting_byte (get_elem? l (i / 6)) (i % 6)

unfoldable pub encode_settings_payload : Writer
unfolding written fill settings_byte
encode_settings_payload = on_frame λ frame buf e. elim frame.payload [
  | settings l ↦
      let size = length l * 6 in
      let n = min (size - (e.encoded_bytes - 9)) (length buf) in
      written n (9 + size) (9 + size) data_complete
        (fill n (e.encoded_bytes - 9) (settings_byte l) buf) e
  | _ ↦ unexpected buf e
]

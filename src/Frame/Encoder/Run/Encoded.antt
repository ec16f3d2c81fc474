-- ===== src/Frame/Encoder/Run/Encoded.antt =====
-- The frames of the connection and DATA, and all frames but HEADERS together.
use mathlib.Core.Path.{subst}
use commonlibrary_rust_ylong.Common.{
  ℕ, ◌+◌, ◌*◌, ◌-◌, ◌≤◌, ◌<◌, ◌≡◌, refl, sym, ap, ◌∙◌, min, none, some, List, ◌++◌, true, false,
  ltb, leb, length, drop, get_elem?, arith,
}
use commonlibrary_rust_ylong.Common.Result.{Result, ok, err}
use commonlibrary_rust_ylong.Frame.{
  Setting, Payload, headers, data_bytes, priority, rst_stream, ping, settings, goaway,
  window_update, push_promise, Frame,
}
use commonlibrary_rust_ylong.Frame.Handlers.{FrameHeader}
use commonlibrary_rust_ylong.Frame.Format.{
  header_bytes, type_code, payload_bytes, header_for, settings_bytes, IsPlain, Carries,
}
use commonlibrary_rust_ylong.Frame.Decoder.Plain.{length-settings_bytes, take_whole}
use commonlibrary_rust_ylong.Frame.Encoder.{
  Failure, panic, EncoderState, data_complete, encoding_settings_payload, encoding_ping_payload,
  encoding_data_payload, FrameEncoder, fill, written, header_byte, state_number, set_frame,
}
use commonlibrary_rust_ylong.Frame.Encoder.Control.{
  encode_ping_frame, encode_ping_payload, encode_settings_frame, encode_settings_payload,
  settings_byte, each_index, connection_header, write_connection_header,
}
use commonlibrary_rust_ylong.Frame.Encoder.Run.{
  writer_of, encode, data_header, encode_data_header, encode_data_payload, after_data,
}
use commonlibrary_rust_ylong.Frame.Encoder.Run.Filled.{
  header_byte-Gives, elements-Gives, settings-Gives, connection_header-bytes,
}
use commonlibrary_rust_ylong.Frame.Encoder.Run.Plain.{
  Wrote, header_part, payload_part, of_payload, Fits, header_of_len, two-Wrote, goaway-Wrote,
  window_update-Wrote, priority-Wrote, rst_stream-Wrote,
}

module _ (flags : ℕ) (e : FrameEncoder) (buf : List ℕ) where
  connection_part :
      (len frame_type : ℕ) (next : EncoderState) (e0 : FrameEncoder)
      → 9 ≤ length buf
      → written
          (min 9 (length buf))
          9
          9
          next
          (each_index (min 9 (length buf)) 0 (connection_header len frame_type flags 0) buf)
          (record e0 { encoded_bytes = 0 })
        ≡ (
          ok (
            9,
            header_bytes (record {
              stream_id = 0;
              flags = flags;
              frame_type = frame_type;
              payload_length = len;
            })
                ++ drop 9 buf,
          ),
          record e0 { encoded_bytes = 9; state = next },
        )
  unfolding written
  connection_part len frame_type next e0 room =
      let nine : min 9 (length buf) ≡ 9 = omega arith in
      rw (nine, connection_header-bytes len frame_type flags buf room) refl

  ping-Wrote :
      (bytes : List ℕ)
      → length bytes ≡ 8
      → Fits 0 flags e buf (ping bytes)
      → Wrote
          (of_payload 0 flags e buf (ping bytes))
          (encode buf (set_frame (of_payload 0 flags e buf (ping bytes)) e))
  unfolding set_frame writer_of state_number encode_ping_frame encode_ping_payload
      write_connection_header payload_bytes type_code header_for
  ping-Wrote bytes eight fits =
      let p : Payload = ping bytes in
      let e0 : FrameEncoder = set_frame (of_payload 0 flags e buf p) e in
      let e1 : FrameEncoder = record e0 { encoded_bytes = 9; state = encoding_ping_payload } in
      let byte = λ (i : ℕ). elim (get_elem? bytes i) as (λ _. Result ℕ Failure) [
        | some b ↦ ok b
        | none ↦ err panic
      ] in
      two-Wrote 0 flags e buf p 8 encode_ping_frame encode_ping_payload e1 _ (sym eight) fits refl
        refl refl refl refl (connection_part 8 6 encoding_ping_payload e0 (omega arith))
        (λ room.
          payload_part byte bytes (drop 9 buf) 8 17 data_complete e1
            (elements-Gives byte bytes 0
              (λ j x at. let first : 0 + j ≡ j = omega arith in rw (first, at) refl))
            (sym eight) room (omega arith))

  settings-Wrote :
      (l : List Setting)
      → Fits 0 flags e buf (settings l)
      → Wrote
          (of_payload 0 flags e buf (settings l))
          (encode buf (set_frame (of_payload 0 flags e buf (settings l)) e))
  unfolding set_frame writer_of state_number encode_settings_frame encode_settings_payload
      write_connection_header payload_bytes type_code header_for
  settings-Wrote l fits =
      let p : Payload = settings l in
      let e0 : FrameEncoder = set_frame (of_payload 0 flags e buf p) e in
      let e1 : FrameEncoder = record e0 { encoded_bytes = 9; state = encoding_settings_payload } in
      let size : length (settings_bytes l) ≡ 6 * length l = length-settings_bytes l in
      two-Wrote 0 flags e buf p (length l * 6) encode_settings_frame encode_settings_payload e1 _
        (omega arith) fits refl refl refl refl refl
        (connection_part (length l * 6) 4 encoding_settings_payload e0 (omega arith))
        (λ room.
          payload_part (settings_byte l) (settings_bytes l) (drop 9 buf) (length l * 6 - 0) _
            data_complete e1 (settings-Gives l) (omega arith) room (omega arith))

module _ (id flags : ℕ) (e : FrameEncoder) (buf : List ℕ) where
  data_payload :
      (l tail : List ℕ) (e1 : FrameEncoder)
      → length l ≤ e1.max_frame_size
      → length l ≤ length tail
      → encode_data_payload tail (record e1 {
        current_frame = some (of_payload id flags e buf (data_bytes l));
        data_offset = 0;
        remaining_payload_bytes = length l;
      })
        ≡ (
          ok (length l, l ++ drop (length l) tail),
          record e1 {
            current_frame = some (of_payload id flags e buf (data_bytes l));
            data_offset = 0;
            remaining_payload_bytes = 0;
            state = data_complete;
          },
        )
  unfolding encode_data_payload after_data
  data_payload l tail e1 allowed room =
      let count : min (min (e1.max_frame_size - 0) (length l)) (length tail) ≡ length l =
        omega arith in
      let inside : ltb (length l) (0 + length l) ≡ false = ground arith in
      let none_left : length l - length l ≡ 0 = omega arith in
      rw (count, inside, take_whole l, none_left) refl

  data-Wrote :
      (l : List ℕ)
      → length l ≤ e.max_frame_size
      → Fits id flags e buf (data_bytes l)
      → Wrote
          (of_payload id flags e buf (data_bytes l))
          (encode buf (set_frame (of_payload id flags e buf (data_bytes l)) e))
  unfolding set_frame writer_of state_number encode_data_header data_header payload_bytes type_code
      header_for
  data-Wrote l allowed fits =
      let p : Payload = data_bytes l in
      let h : FrameHeader = header_of_len id flags e buf p (length l) in
      let e0 : FrameEncoder = set_frame (of_payload id flags e buf p) e in
      let e1 : FrameEncoder = record e0 { encoded_bytes = 0; state = encoding_data_payload } in
      let same : data_header (of_payload id flags e buf p) e0 ≡ h =
        let whole : leb (length l) e.max_frame_size ≡ true = ground arith in
        let size : min (length l) e.max_frame_size ≡ length l = omega arith in
        rw (whole, size) refl in
      two-Wrote id flags e buf p (length l) encode_data_header encode_data_payload e1 _ refl fits
        refl refl refl refl refl
        (ap
            (λ h'.
              written (min 9 (length buf)) 9 0 encoding_data_payload
                (fill (min 9 (length buf)) 0 (header_byte h') buf) e0)
            same
          ∙ header_part (header_byte h) h 0 encoding_data_payload e0 buf (header_byte-Gives h)
              (omega arith))
        (λ room. data_payload l (drop 9 buf) e1 allowed room)

  payload-Wrote :
      (p : Payload)
      → Carries p id flags
      → length (payload_bytes p) ≤ e.max_frame_size
      → Fits id flags e buf p
      → Wrote (of_payload id flags e buf p) (encode buf (set_frame (of_payload id flags e buf p) e))
  unfolding payload_bytes
  payload-Wrote (data_bytes l) c allowed fits = data-Wrote l allowed fits
  payload-Wrote (headers parts) c allowed fits = absurd c
  payload-Wrote (priority exclusive dependency weight) (stream, small) allowed fits =
      priority-Wrote id flags e buf exclusive dependency weight small fits
  payload-Wrote (rst_stream code) c allowed fits = rst_stream-Wrote id flags e buf code fits
  payload-Wrote (settings l) (zero_id, ack, good) allowed fits =
      subst
        (λ i.
          Fits i flags e buf (settings l)
          → Wrote (of_payload i flags e buf (settings l))
              (encode buf (set_frame (of_payload i flags e buf (settings l)) e)))
        (sym zero_id) (settings-Wrote flags e buf l) fits
  payload-Wrote (push_promise promised parts) c allowed fits = absurd c
  payload-Wrote (ping bytes) (zero_id, eight) allowed fits =
      subst
        (λ i.
          Fits i flags e buf (ping bytes)
          → Wrote (of_payload i flags e buf (ping bytes))
              (encode buf (set_frame (of_payload i flags e buf (ping bytes)) e)))
        (sym zero_id) (ping-Wrote flags e buf bytes eight) fits
  payload-Wrote (goaway code last debug) c allowed fits =
      goaway-Wrote id flags e buf code last debug fits
  payload-Wrote (window_update increment) c allowed fits =
      window_update-Wrote id flags e buf increment fits

-- A frame of the wire format without a header block or padding, no longer than the frame size, that is set in
-- the encoder and encoded into a buffer with more room than it needs: the call succeeds, writes the
-- bytes of the wire format and nothing else, and is done with the frame.
pub encode-Wrote :
    (frame : Frame) (e : FrameEncoder) (buf : List ℕ)
    → IsPlain frame
    → length (payload_bytes frame.payload) ≤ e.max_frame_size
    → 9 + length (payload_bytes frame.payload) < length buf
    → Wrote frame (encode buf (set_frame frame e))
encode-Wrote frame e buf plain allowed fits =
    payload-Wrote frame.id frame.flags e buf frame.payload plain.carries allowed fits

-- ===== src/Frame/Encoder/Run/Plain.antt =====
-- Each frame but HEADERS, written whole, is the frame of the wire format.
use mathlib.Core.Path.{subst}
use commonlibrary_rust_ylong.Common.{
  ℕ, ◌+◌, ◌*◌, ◌-◌, ◌^◌, ◌≤◌, ◌<◌, ◌≡◌, refl, sym, ap, min, some, List, ◌++◌, Bool, true, false,
  ◌==◌, length, length-drop, drop, arith,
}
use commonlibrary_rust_ylong.Common.Result.{Result, ok, err}
use commonlibrary_rust_ylong.Frame.{Payload, priority, rst_stream, goaway, window_update, Frame}
use commonlibrary_rust_ylong.Frame.Numbers.Bytes.{byte_at}
use commonlibrary_rust_ylong.Frame.Handlers.{FrameHeader}
use commonlibrary_rust_ylong.Frame.Format.{
  header_bytes, type_code, payload_bytes, header_for, frame_bytes,
}
use commonlibrary_rust_ylong.Frame.Encoder.{
  Failure, EncoderState, data_complete, encoding_goaway_payload, encoding_window_update_payload,
  encoding_priority_payload, encoding_rst_stream_payload, FrameEncoder, Writer, Written, fill,
  written, header_byte, state_number, set_frame,
}
use commonlibrary_rust_ylong.Frame.Encoder.Control.{
  encode_goaway_frame, encode_goaway_payload, encode_window_update_frame,
  encode_window_update_payload, encode_priority_frame, encode_priority_payload,
  encode_rst_stream_frame, encode_rst_stream_payload, goaway_byte, priority_byte, rst_stream_byte,
}
use commonlibrary_rust_ylong.Frame.Encoder.Run.{writer_of, encode}
use commonlibrary_rust_ylong.Frame.Encoder.Run.Filled.{
  Gives, fill-Gives, header_byte-Gives, rst_stream_byte-Gives, four-Gives, priority-Gives,
  goaway-Gives,
}
use commonlibrary_rust_ylong.Frame.Encoder.Run.Whole.{encode_two}

-- A call that wrote the frame and nothing else, and is done with it.
abbrev pub Wrote : Frame → Written → Type 0
Wrote frame (err x, e) = ⊥
Wrote frame (ok (n, buf), e) =
    (n ≡ length (frame_bytes frame))
    × ((rest : List ℕ) × (buf ≡ frame_bytes frame ++ rest))
    × (e.state ≡ data_complete)

frame_written :
    (frame : Frame) (len : ℕ) (m : Written) (rest : List ℕ) (e : FrameEncoder)
    → len ≡ length (payload_bytes frame.payload)
    → e.state ≡ data_complete
    → m ≡ (
      ok (
        length (
            header_bytes (record (header_for frame) { payload_length = len })
            ++ payload_bytes frame.payload),
        header_bytes (record (header_for frame) { payload_length = len })
            ++ payload_bytes frame.payload
            ++ rest,
      ),
      e,
    )
    → Wrote frame m
unfolding frame_bytes header_for
frame_written frame len m rest e size done path = subst (Wrote frame) (sym path) (
  ap
      (λ n. length (
        header_bytes (record (header_for frame) { payload_length = n })
        ++ payload_bytes frame.payload))
      size,
  (
    rest,
    ap
        (λ n.
          header_bytes (record (header_for frame) { payload_length = n })
          ++ payload_bytes frame.payload
          ++ rest)
        size,
  ),
  done,
)

pub header_part :
    (byte : ℕ → Result ℕ Failure) (h : FrameHeader) (kept : ℕ) (next : EncoderState)
    (e : FrameEncoder) (buf : List ℕ)
    → Gives byte 0 (header_bytes h)
    → 9 ≤ length buf
    → written
        (min 9 (length buf))
        9
        kept
        next
        (fill (min 9 (length buf)) 0 byte buf)
        (record e { encoded_bytes = 0 })
      ≡ (ok (9, header_bytes h ++ drop 9 buf), record e { encoded_bytes = kept; state = next })
unfolding written
header_part byte h kept next e buf gives room =
    let nine : min 9 (length buf) ≡ 9 = omega arith in
    rw (nine, fill-Gives byte 0 (header_bytes h) buf gives room) refl

pub payload_part :
    (byte : ℕ → Result ℕ Failure) (l tail : List ℕ) (n last : ℕ) (next : EncoderState)
    (e : FrameEncoder)
    → Gives byte 0 l
    → n ≡ length l
    → length l ≤ length tail
    → e.encoded_bytes + length l ≡ last
    → written (min n (length tail)) last last next (fill (min n (length tail)) 0 byte tail) e
      ≡ (ok (length l, l ++ drop (length l) tail), record e { encoded_bytes = last; state = next })
unfolding written
payload_part byte l tail n last next e gives size room sum =
    let count : min n (length tail) ≡ length l = omega arith in
    let ends : (e.encoded_bytes + length l == last) ≡ true = ground (arith, sum) in
    rw (count, fill-Gives byte 0 l tail gives room, ends) refl

module _ (id flags : ℕ) (e : FrameEncoder) (buf : List ℕ) where
  abbrev pub of_payload : Payload → Frame
  of_payload p = record { id = id; flags = flags; payload = p }

  abbrev pub Fits : Payload → Type 0
  Fits p = 9 + length (payload_bytes p) < length buf

  -- The header that the code writes, with the length that it computes.
  abbrev pub header_of_len : Payload → ℕ → FrameHeader
  header_of_len p len = record (header_for (of_payload p)) { payload_length = len }

  pub two-Wrote :
      (p : Payload) (len : ℕ) (w w' : Writer) (e1 e2 : FrameEncoder)
      → len ≡ length (payload_bytes p)
      → Fits p
      → writer_of (set_frame (of_payload p) e).state ≡ some w
      → writer_of e1.state ≡ some w'
      → e2.state ≡ data_complete
      → (state_number e1.state == state_number (set_frame (of_payload p) e).state) ≡ false
      → (state_number e2.state == state_number e1.state) ≡ false
      → w buf (set_frame (of_payload p) e)
        ≡ (ok (9, header_bytes (header_of_len p len) ++ drop 9 buf), e1)
      → (length (payload_bytes p) ≤ length (drop 9 buf)
          → w' (drop 9 buf) e1 ≡ (
            ok (
              length (payload_bytes p),
              payload_bytes p ++ drop (length (payload_bytes p)) (drop 9 buf),
            ),
            e2,
          ))
      → Wrote (of_payload p) (encode buf (set_frame (of_payload p) e))
  unfolding writer_of
  two-Wrote p len w w' e1 e2 size fits arm arm' done other other' wrote wrote' =
      let body : List ℕ = payload_bytes p in
      let tail : List ℕ = drop 9 buf in
      frame_written (of_payload p) len _ (drop (length body) tail) e2 size done (
        encode_two w w' (set_frame (of_payload p) e) e1 e2 (header_bytes (header_of_len p len)) body
          buf tail (drop (length body) tail) (omega arith) (omega (arith, length-drop 9 buf)) arm
          arm' (ap writer_of done) other other' wrote (wrote' (omega (arith, length-drop 9 buf))))

  pub goaway-Wrote :
      (code last : ℕ) (debug : List ℕ)
      → Fits (goaway code last debug)
      → Wrote
          (of_payload (goaway code last debug))
          (encode buf (set_frame (of_payload (goaway code last debug)) e))
  unfolding set_frame writer_of state_number encode_goaway_frame encode_goaway_payload payload_bytes
      type_code header_for
  goaway-Wrote code last debug fits =
      let p : Payload = goaway code last debug in
      let h : FrameHeader = header_of_len p (8 + length debug) in
      let e0 : FrameEncoder = set_frame (of_payload p) e in
      let e1 : FrameEncoder = record e0 { encoded_bytes = 9; state = encoding_goaway_payload } in
      two-Wrote p (8 + length debug) encode_goaway_frame encode_goaway_payload e1 _ (omega arith)
        fits refl refl refl refl refl
        (header_part (header_byte h) h 9 encoding_goaway_payload e0 buf (header_byte-Gives h)
          (omega arith))
        (λ room.
          payload_part (goaway_byte code last debug) (payload_bytes p) (drop 9 buf) _ _
            data_complete e1 (goaway-Gives code last debug) (omega arith) room (omega arith))

  pub window_update-Wrote :
      (increment : ℕ)
      → Fits (window_update increment)
      → Wrote
          (of_payload (window_update increment))
          (encode buf (set_frame (of_payload (window_update increment)) e))
  unfolding set_frame writer_of state_number encode_window_update_frame encode_window_update_payload
      payload_bytes type_code header_for
  window_update-Wrote increment fits =
      let p : Payload = window_update increment in
      let h : FrameHeader = header_of_len p 4 in
      let e0 : FrameEncoder = set_frame (of_payload p) e in
      let e1 : FrameEncoder = record e0 {
        encoded_bytes = 0;
        state = encoding_window_update_payload;
      } in
      two-Wrote p 4 encode_window_update_frame encode_window_update_payload e1 _ refl fits refl refl
        refl refl refl
        (header_part (header_byte h) h 0 encoding_window_update_payload e0 buf (header_byte-Gives h)
          (omega arith))
        (λ room.
          payload_part (λ i. ok (byte_at (24 - 8 * i) increment)) (payload_bytes p) (drop 9 buf) 4 4
            data_complete e1 (four-Gives increment) refl room refl)

  pub priority-Wrote :
      (exclusive : Bool) (dependency weight : ℕ)
      → dependency < 2 ^ 31
      → Fits (priority exclusive dependency weight)
      → Wrote
          (of_payload (priority exclusive dependency weight))
          (encode buf (set_frame (of_payload (priority exclusive dependency weight)) e))
  unfolding set_frame writer_of state_number encode_priority_frame encode_priority_payload
      payload_bytes type_code header_for
  priority-Wrote exclusive dependency weight small fits =
      let p : Payload = priority exclusive dependency weight in
      let h : FrameHeader = header_of_len p 5 in
      let e0 : FrameEncoder = set_frame (of_payload p) e in
      let e1 : FrameEncoder = record e0 { encoded_bytes = 9; state = encoding_priority_payload } in
      two-Wrote p 5 encode_priority_frame encode_priority_payload e1 _ refl fits refl refl refl refl
        refl
        (header_part (header_byte h) h 9 encoding_priority_payload e0 buf (header_byte-Gives h)
          (omega arith))
        (λ room.
          payload_part (priority_byte exclusive dependency weight) (payload_bytes p) (drop 9 buf) 5
            14 data_complete e1 (priority-Gives exclusive dependency weight small) refl room refl)

  pub rst_stream-Wrote :
      (code : ℕ)
      → Fits (rst_stream code)
      → Wrote
          (of_payload (rst_stream code))
          (encode buf (set_frame (of_payload (rst_stream code)) e))
  unfolding set_frame writer_of state_number encode_rst_stream_frame encode_rst_stream_payload
      payload_bytes type_code header_for
  rst_stream-Wrote code fits =
      let p : Payload = rst_stream code in
      let h : FrameHeader = header_of_len p 4 in
      let e0 : FrameEncoder = set_frame (of_payload p) e in
      let e1 : FrameEncoder = record e0 {
        encoded_bytes = 9;
        state = encoding_rst_stream_payload;
      } in
      two-Wrote p 4 encode_rst_stream_frame encode_rst_stream_payload e1 _ refl fits refl refl refl
        refl refl
        (header_part (rst_stream_byte (of_payload p) 0) h 9 encoding_rst_stream_payload e0 buf
          (rst_stream_byte-Gives (of_payload p)) (omega arith))
        (λ room.
          payload_part (λ i. ok (byte_at (24 - 8 * i) code)) (payload_bytes p) (drop 9 buf) 4 13
            data_complete e1 (four-Gives code) refl room refl)

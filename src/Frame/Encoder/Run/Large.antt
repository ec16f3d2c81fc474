-- ===== src/Frame/Encoder/Run/Large.antt =====
-- DATA that does not fit one frame.
use mathlib.Core.Path.{subst}
use mathlib.Core.List.{append_assoc}
use Prim.Native.Nat.{bit_and}
use commonlibrary_rust_ylong.Common.{
  ℕ, suc, ◌+◌, ◌*◌, ◌-◌, ◌≤◌, ◌<◌, ◌≡◌, refl, sym, ap, ◌∙◌, min, some, List, [], ◌++◌, true, false,
  ltb, leb, ◌==◌, length, length-append, length-drop, length-take, take, drop, arith,
}
use commonlibrary_rust_ylong.Common.Result.{ok, err}
use commonlibrary_rust_ylong.Frame.{data_bytes, Frame}
use commonlibrary_rust_ylong.Frame.Handlers.{FrameHeader}
use commonlibrary_rust_ylong.Frame.Format.{header_bytes}
use commonlibrary_rust_ylong.Frame.Encoder.{
  EncoderState, data_complete, encoding_data_payload, encoding_data_header, FrameEncoder, Writer,
  Written, header_byte, state_number, set_frame,
}
use commonlibrary_rust_ylong.Frame.Encoder.Run.{
  writer_of, behind, encode, encode_loop, data_header, encode_data_header, encode_data_payload,
  after_data,
}
use commonlibrary_rust_ylong.Frame.Encoder.Run.Filled.{header_byte-Gives}
use commonlibrary_rust_ylong.Frame.Encoder.Run.Whole.{
  take_first, encode_loop_round, encode_loop_complete,
}
use commonlibrary_rust_ylong.Frame.Encoder.Run.Plain.{header_part}

-- A call that wrote these bytes.
abbrev pub WroteBytes : List ℕ → Written → Type 0
WroteBytes l (err x, e) = ⊥
WroteBytes l (ok (n, buf), e) = (n ≡ length l) × ((rest : List ℕ) × (buf ≡ l ++ rest))

behind-WroteBytes :
    (l tail l2 : List ℕ) (m : Written)
    → WroteBytes l2 m
    → WroteBytes (l ++ l2) (behind (length l) (l ++ tail) m)
behind-WroteBytes l tail l2 (err x, e) h = h
behind-WroteBytes l tail l2 (ok (n, buf), e) (count, (rest, bytes)) = (
  ap (λ k. length l + k) count ∙ sym (length-append l l2),
  (
    rest,
    ap (λ t. t ++ buf) (take_first l tail) ∙ ap (λ b. l ++ b) bytes ∙ sym (append_assoc l l2 rest),
  ),
)

round-WroteBytes :
    (f : ℕ) (w : Writer) (e e' : FrameEncoder) (l tail buf l2 : List ℕ)
    → 0 < length buf
    → writer_of e.state ≡ some w
    → w buf e ≡ (ok (length l, l ++ tail), e')
    → (state_number e'.state == state_number e.state) ≡ false
    → WroteBytes l2 (encode_loop f tail e')
    → WroteBytes (l ++ l2) (encode_loop (suc f) buf e)
round-WroteBytes f w e e' l tail buf l2 room arm wrote other h =
    subst (WroteBytes (l ++ l2)) (sym (encode_loop_round f w e e' l tail buf room arm wrote other))
      (behind-WroteBytes l tail l2 (encode_loop f tail e') h)

module _ (id flags : ℕ) (l : List ℕ) (e : FrameEncoder) where
  abbrev pub large_frame : Frame
  large_frame = record { id = id; flags = flags; payload = data_bytes l }

  -- The encoder at a header or a payload, with the bytes that are left.
  abbrev at_data : EncoderState → ℕ → FrameEncoder
  at_data st left = record e {
    current_frame = some large_frame;
    is_end_stream = (set_frame large_frame e).is_end_stream;
    is_end_headers = (set_frame large_frame e).is_end_headers;
    encoded_bytes = 0;
    data_offset = 0;
    remaining_payload_bytes = left;
    state = st;
  }

  header_wrote :
      (left : ℕ) (buf : List ℕ)
      → 9 ≤ length buf
      → encode_data_header buf (at_data encoding_data_header left) ≡ (
        ok (
          9,
          header_bytes (data_header large_frame (at_data encoding_data_header left)) ++ drop 9 buf,
        ),
        at_data encoding_data_payload left,
      )
  unfolding encode_data_header
  header_wrote left buf room =
      let h : FrameHeader = data_header large_frame (at_data encoding_data_header left) in
      header_part (header_byte h) h 0 encoding_data_payload (at_data encoding_data_header left) buf
        (header_byte-Gives h) room

  -- A payload starts with the data, whatever was sent of them before.
  payload_wrote :
      (n left : ℕ) (st : EncoderState) (buf : List ℕ)
      → n ≡ min e.max_frame_size left
      → n ≤ length buf
      → n ≤ length l
      → after_data (record (at_data encoding_data_payload left) {
        data_offset = n;
        remaining_payload_bytes = left - n;
      })
        ≡ at_data st (left - n)
      → encode_data_payload buf (at_data encoding_data_payload left)
        ≡ (ok (length (take n l), take n l ++ drop n buf), at_data st (left - n))
  unfolding encode_data_payload
  payload_wrote n left st buf size room inside next =
      let count : min (min (e.max_frame_size - 0) left) (length buf) ≡ n = omega arith in
      let fits : ltb (length l) (0 + n) ≡ false = ground arith in
      let offset : 0 + n ≡ n = omega arith in
      let took : length (take n l) ≡ n = omega (arith, length-take n l) in
      rw (count, fits, offset, next, took) refl

  more_left :
      (left : ℕ)
      → e.max_frame_size < left
      → after_data (record (at_data encoding_data_payload left) {
        data_offset = e.max_frame_size;
        remaining_payload_bytes = left - e.max_frame_size;
      })
        ≡ at_data encoding_data_header (left - e.max_frame_size)
  unfolding after_data
  more_left left more =
      let some_left : (left - e.max_frame_size == 0) ≡ false = ground arith in
      let full : (e.max_frame_size == e.max_frame_size) ≡ true = ground arith in
      rw (some_left, full) refl

  all_sent :
      (left : ℕ)
      → after_data (record (at_data encoding_data_payload left) {
        data_offset = left;
        remaining_payload_bytes = left - left;
      })
        ≡ at_data data_complete (left - left)
  unfolding after_data
  all_sent left = let none_left : (left - left == 0) ≡ true = ground arith in rw none_left refl

  -- The headers of two DATA frames, the first of which is full and does not end the stream.
  abbrev pub full_header : FrameHeader
  full_header = record {
    stream_id = id;
    flags = bit_and flags 0xfe;
    frame_type = 0;
    payload_length = e.max_frame_size;
  }

  abbrev pub last_header : FrameHeader
  last_header = record {
    stream_id = id;
    flags = flags;
    frame_type = 0;
    payload_length = length l - e.max_frame_size;
  }

  full_data_header :
      e.max_frame_size < length l
      → data_header large_frame (at_data encoding_data_header (length l)) ≡ full_header
  unfolding data_header
  full_data_header more =
      let over : leb (length l) e.max_frame_size ≡ false = ground arith in
      let size : min (length l) e.max_frame_size ≡ e.max_frame_size = omega arith in
      rw (over, size) refl

  last_data_header :
      length l ≤ 2 * e.max_frame_size
      → data_header large_frame (at_data encoding_data_header (length l - e.max_frame_size))
        ≡ last_header
  unfolding data_header
  last_data_header fits =
      let left : ℕ = length l - e.max_frame_size in
      let under : leb left e.max_frame_size ≡ true = ground arith in
      let size : min left e.max_frame_size ≡ left = omega arith in rw (under, size) refl

  -- One frame, with a header `h` and the first `n` bytes of the data.
  frame_WroteBytes :
      (f n left : ℕ) (st : EncoderState) (h : FrameHeader) (buf l2 : List ℕ)
      → data_header large_frame (at_data encoding_data_header left) ≡ h
      → n ≡ min e.max_frame_size left
      → n ≤ length l
      → 9 + n ≤ length buf
      → 9 < length buf
      → after_data (record (at_data encoding_data_payload left) {
        data_offset = n;
        remaining_payload_bytes = left - n;
      })
        ≡ at_data st (left - n)
      → (state_number st == 3) ≡ false
      → WroteBytes l2 (encode_loop f (drop n (drop 9 buf)) (at_data st (left - n)))
      → WroteBytes
          (header_bytes h ++ (take n l ++ l2))
          (encode_loop (suc (suc f)) buf (at_data encoding_data_header left))
  unfolding writer_of state_number
  frame_WroteBytes f n left st h buf l2 head size inside room room' next other rest =
      let tail : List ℕ = drop 9 buf in
      round-WroteBytes (suc f) encode_data_header (at_data encoding_data_header left)
        (at_data encoding_data_payload left) (header_bytes h) tail buf (take n l ++ l2)
        (omega arith) refl
        (header_wrote left buf (omega arith)
          ∙ ap (λ h'. (ok (9, header_bytes h' ++ tail), at_data encoding_data_payload left)) head)
        refl
        (round-WroteBytes f encode_data_payload (at_data encoding_data_payload left)
          (at_data st (left - n)) (take n l) (drop n tail) tail l2
          (omega (arith, length-drop 9 buf)) refl
          (payload_wrote n left st tail size (omega (arith, length-drop 9 buf)) inside next) other
          rest)

  abbrev pub large_bytes : List ℕ
  large_bytes =
      header_bytes full_header
      ++ (take e.max_frame_size l
          ++ (header_bytes last_header ++ (take (length l - e.max_frame_size) l ++ [])))

  pub large-WroteBytes :
      (buf : List ℕ)
      → e.max_frame_size < length l
      → length l ≤ 2 * e.max_frame_size
      → 18 + length l < length buf
      → WroteBytes large_bytes (encode buf (set_frame large_frame e))
  unfolding encode set_frame state_number writer_of
  large-WroteBytes buf more fits room =
      let m : ℕ = e.max_frame_size in
      let left : ℕ = length l - m in
      let f : ℕ = 2 * length buf - 3 in
      let fuel : 2 * length buf + 2 ≡ suc (suc (suc (suc (suc f)))) = omega arith in
      let behind_first : List ℕ = drop m (drop 9 buf) in
      let sizes : length behind_first ≡ length buf - 9 - m =
        length-drop m (drop 9 buf) ∙ ap (λ k. k - m) (length-drop 9 buf) in
      let behind_last : List ℕ = drop left (drop 9 behind_first) in
      subst
        (λ k. WroteBytes large_bytes (encode_loop k buf (at_data encoding_data_header (length l))))
        (sym fuel)
        (frame_WroteBytes (suc (suc (suc f))) m (length l) encoding_data_header full_header buf _
          (full_data_header more) (omega arith) (omega arith) (omega arith) (omega arith)
          (more_left (length l) more) refl
          (frame_WroteBytes (suc f) left left data_complete last_header behind_first []
            (last_data_header fits) (omega arith) (omega arith) (omega arith) (omega arith)
            (all_sent left) refl
            (subst (WroteBytes [])
              (sym (encode_loop_complete f (at_data data_complete (left - left)) behind_last refl))
              (refl, (behind_last, refl)))))

-- DATA with more bytes than the frame size, and at most twice as many, encoded into a buffer with more room
-- than it needs: the encoder writes a full frame with the first bytes of the data, without END_STREAM, and
-- then a frame with the number of bytes that are left and the flags given. But that frame has the
-- first bytes of the data again, and not those that are left.
pub encode_large_data :
    (id flags : ℕ) (l : List ℕ) (e : FrameEncoder) (buf : List ℕ)
    → e.max_frame_size < length l
    → length l ≤ 2 * e.max_frame_size
    → 18 + length l < length buf
    → WroteBytes (large_bytes id flags l e) (encode buf (set_frame (large_frame id flags l e) e))
encode_large_data id flags l e buf more fits room = large-WroteBytes id flags l e buf more fits room

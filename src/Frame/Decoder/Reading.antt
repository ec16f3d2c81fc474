-- ===== src/Frame/Decoder/Reading.antt =====
-- What the decoder makes of whole frames, one after the other.
use mathlib.Core.List.{append-nil}
use commonlibrary_rust_ylong.Common.{
  ℕ, suc, ◌+◌, ◌*◌, ◌-◌, ◌^◌, ◌≤◌, ◌<◌, ◌≡◌, refl, ap, ◌∙◌, some, List, [], ◌∷◌, ◌++◌, false, ltb,
  length, length-append, take, drop, take-append_ge, drop-append_ge, arith,
}
use commonlibrary_rust_ylong.H2.Fate.{Fate, returned, failed, panicked, out_of_fuel, continue}
use commonlibrary_rust_ylong.Frame.Numbers.Bytes.{byte_at, get_stream_id-byte_at}
use commonlibrary_rust_ylong.Frame.Format.{header_bytes}
use commonlibrary_rust_ylong.Frame.Handlers.{Core, FrameHeader, FrameKind, reset_header}
use commonlibrary_rust_ylong.Frame.Decoder.{
  FrameDecoder, header_stage, payload_stage, decode_payload, out_of_order, finished,
  decode_frame_payload, header_of, decode_frame_header, payload_read, round, decode_loop,
  enough_fuel, decode,
}
use commonlibrary_rust_ylong.Frame.Decoder.Rounds.{held}
use commonlibrary_rust_ylong.Frame.Decoder.Steps.{loop_fuel}

header_of-header_bytes :
    (h : FrameHeader) (rest : List ℕ)
    → h.payload_length < 2 ^ 24
    → h.stream_id < 2 ^ 31
    → header_of (header_bytes h ++ rest) ≡ some h
unfolding header_of
header_of-header_bytes h rest small stream =
    let n : ℕ = h.payload_length in
    let len : byte_at 16 n * 2 ^ 16 + byte_at 8 n * 2 ^ 8 + byte_at 0 n ≡ n = omega arith in
    rw (len, get_stream_id-byte_at h.stream_id stream) refl

read_header_round :
    (h : FrameHeader) (bytes rest : List ℕ) (c : Core)
    → header_of bytes ≡ some h
    → drop 9 bytes ≡ rest
    → 9 ≤ length bytes
    → h.payload_length ≤ c.max_frame_size
    → round bytes (held [] header_stage c)
      ≡ (returned (some (rest, [])), held [] payload_stage (record c { header = h }))
unfolding round decode_frame_header
read_header_round h bytes rest c read left enough allowed =
    let fits : ltb (length bytes) 9 ≡ false = ground arith in
    let size : ltb c.max_frame_size h.payload_length ≡ false = ground arith in
    rw (fits, read, left, size) refl

pub header_round :
    (h : FrameHeader) (rest : List ℕ) (c : Core)
    → h.payload_length < 2 ^ 24
    → h.stream_id < 2 ^ 31
    → h.payload_length ≤ c.max_frame_size
    → round (header_bytes h ++ rest) (held [] header_stage c)
      ≡ (returned (some (rest, [])), held [] payload_stage (record c { header = h }))
header_round h rest c small stream allowed =
    read_header_round h (header_bytes h ++ rest) rest c (header_of-header_bytes h rest small stream)
      refl (omega arith) allowed

pub payload_round :
    (payload rest : List ℕ) (c : Core)
    → length payload ≡ c.header.payload_length
    → out_of_order c ≡ false
    → round (payload ++ rest) (held [] payload_stage c)
      ≡ continue
          (continue
            (decode_payload c.header.frame_type payload (held [] payload_stage c))
            (finished rest))
          payload_read
unfolding round decode_frame_payload
payload_round payload rest c whole ordered =
    let n : c.header.payload_length - 0 ≡ length payload = omega arith in
    let sizes : length (payload ++ rest) ≡ length payload + length rest =
      length-append payload rest in
    let fits : ltb (length (payload ++ rest)) (length payload) ≡ false = ground arith in
    let bytes : take (length payload) (payload ++ rest) ≡ payload =
      take-append_ge (length payload) 0 payload rest (omega arith) ∙ append-nil payload in
    let left : drop (length payload) (payload ++ rest) ≡ rest =
      drop-append_ge (length payload) 0 payload rest (omega arith) in
    rw (ordered, n, fits, bytes, left) refl

twice :
    (m : Fate (List FrameKind) × FrameDecoder) (kind : FrameKind)
    → continue (continue m (λ more d. (returned (kind ∷ more), d))) (λ more d. (returned more, d))
      ≡ continue m (λ more d. (returned (kind ∷ more), d))
twice (returned more, d) kind = refl
twice (failed e, d) kind = refl
twice (panicked, d) kind = refl
twice (out_of_fuel, d) kind = refl

-- The frame that a handler makes of a whole payload, before what follows it.
pub decode_whole :
    (h : FrameHeader) (payload rest : List ℕ) (c c' : Core) (kind : FrameKind)
    → h.payload_length < 2 ^ 24
    → h.stream_id < 2 ^ 31
    → h.payload_length ≤ c.max_frame_size
    → length payload ≡ h.payload_length
    → out_of_order (record c { header = h }) ≡ false
    → decode_payload h.frame_type payload (held [] payload_stage (record c { header = h }))
      ≡ (returned kind, held [] payload_stage c')
    → decode (held [] header_stage c) (header_bytes h ++ (payload ++ rest))
      ≡ continue
          (decode (held [] header_stage (record c' { header = reset_header })) rest)
          (λ more d. (returned (kind ∷ more), d))
unfolding decode decode_loop
decode_whole h payload rest c c' kind small stream allowed whole ordered handled =
    let sizes : length (header_bytes h ++ (payload ++ rest)) ≡ 9 + (length payload + length rest) =
      omega (arith, length-append payload rest) in
    let fuel : enough_fuel (header_bytes h ++ (payload ++ rest))
        ≡ suc (suc (2 * (length payload + length rest) + 19)) =
      omega arith in
    let next : FrameDecoder = held [] header_stage (record c' { header = reset_header }) in
    rw
      (
        fuel,
        header_round h (payload ++ rest) c small stream allowed,
        payload_round payload rest (record c { header = h }) whole ordered,
        handled,
      )
      (twice (decode_loop (2 * (length payload + length rest) + 19) rest next) kind
        ∙ ap (λ m. continue m (λ more d. (returned (kind ∷ more), d)))
            (loop_fuel (2 * (length payload + length rest) + 19) (enough_fuel rest) rest next
              (record { counted = refl; room = omega arith }) (omega arith) (omega arith)))

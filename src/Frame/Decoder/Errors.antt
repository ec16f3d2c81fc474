-- ===== src/Frame/Decoder/Errors.antt =====
-- What an error on one stream leaves of the decoder, which the client keeps on using.
use commonlibrary_rust_ylong.Common.{
  ℕ, suc, ◌+◌, ◌*◌, ◌^◌, ◌≤◌, ◌<◌, ◌≡◌, ap, refl, List, [], ◌∷◌, ◌++◌, true, false, Bool-cases, inl,
  inr, ltb, ◌-◌, ◌==◌, length, arith,
}
use commonlibrary_rust_ylong.H2.Error.{stream_error, protocol_error, frame_size_error}
use commonlibrary_rust_ylong.H2.Fate.{Fate, returned, failed, continue}
use commonlibrary_rust_ylong.Frame.{window_update}
use commonlibrary_rust_ylong.Frame.Numbers.{get_stream_id, get_code_value}
use commonlibrary_rust_ylong.Frame.Format.{header_bytes}
use commonlibrary_rust_ylong.Frame.Handlers.{
  Core, FrameHeader, FrameKind, complete, complete_frame, window_update_frame, stream_id_of,
}
use commonlibrary_rust_ylong.Frame.Decoder.{
  FrameDecoder, header_stage, payload_stage, out_of_order, decode, decode_loop, round, handlers,
  decode_payload, decode_priority_payload, decode_frame_payload, enough_fuel,
}
use commonlibrary_rust_ylong.Frame.Decoder.Rounds.{held}
use commonlibrary_rust_ylong.Frame.Decoder.Cuts.{feed}
use commonlibrary_rust_ylong.Frame.Decoder.Plain.{take_whole}
use commonlibrary_rust_ylong.Frame.Decoder.Steps.{loop_fuel}
use commonlibrary_rust_ylong.Frame.Decoder.Written.{between}
use commonlibrary_rust_ylong.Frame.Decoder.Reading.{header_round, payload_round}

abbrev pub update_header : ℕ → FrameHeader
update_header id = record { stream_id = id; flags = 0; frame_type = 8; payload_length = 4 }

abbrev pub stuck : ℕ → Core → FrameDecoder
stuck id c = held [] payload_stage (record c { header = update_header id })

out_of_order_closed :
    (id : ℕ) (c : Core)
    → c.continuations.is_end_headers ≡ true
    → out_of_order (record c { header = update_header id }) ≡ false
unfolding out_of_order
out_of_order_closed id c closed = rw closed refl

decode_zero_increment :
    (id : ℕ) (rest : List ℕ) (c : Core)
    → id < 2 ^ 31
    → 4 ≤ c.max_frame_size
    → c.continuations.is_end_headers ≡ true
    → decode
        (held [] header_stage c)
        (header_bytes (update_header id) ++ (0 ∷ 0 ∷ 0 ∷ 0 ∷ [] ++ rest))
      ≡ (failed (stream_error id protocol_error), stuck id c)
unfolding decode decode_loop decode_payload handlers window_update_frame stream_id_of get_stream_id
    get_code_value
decode_zero_increment id rest c stream allowed closed =
    let whole : List ℕ = header_bytes (update_header id) ++ (0 ∷ 0 ∷ 0 ∷ 0 ∷ [] ++ rest) in
    let fuel : enough_fuel whole ≡ suc (suc (2 * length rest + 27)) = omega arith in
    rw
      (
        fuel,
        header_round (update_header id) (0 ∷ 0 ∷ 0 ∷ 0 ∷ [] ++ rest) c (omega arith) stream allowed,
        payload_round (0 ∷ 0 ∷ 0 ∷ 0 ∷ []) rest (record c { header = update_header id }) refl
            (out_of_order_closed id c closed),
      )
      refl

-- The increment that four bytes hold.
abbrev pub increment_of : ℕ → ℕ → ℕ → ℕ → ℕ
increment_of a b e g = get_stream_id a b e g

-- The frames, with a WINDOW_UPDATE frame before them.
abbrev pub with_update :
    ℕ → ℕ → List FrameKind → FrameDecoder → Fate (List FrameKind) × FrameDecoder
with_update id increment more d = (
  returned (complete (record { id = id; flags = 0; payload = window_update increment }) ∷ more),
  d,
)

stuck_reads :
    (id a b e g : ℕ) (rest : List ℕ) (c : Core)
    → (increment_of a b e g == 0) ≡ false
    → c.continuations.is_end_headers ≡ true
    → decode (stuck id c) (a ∷ b ∷ e ∷ g ∷ [] ++ rest)
      ≡ continue (decode (between c) rest) (with_update id (increment_of a b e g))
unfolding decode decode_loop decode_payload handlers window_update_frame stream_id_of complete_frame
stuck_reads id a b e g rest c nonzero closed =
    let fuel : enough_fuel (a ∷ b ∷ e ∷ g ∷ [] ++ rest) ≡ suc (2 * length rest + 10) =
      omega arith in
    rw
      (
        fuel,
        payload_round (a ∷ b ∷ e ∷ g ∷ []) rest (record c { header = update_header id }) refl
            (out_of_order_closed id c closed),
        nonzero,
      )
      (ap (λ m. continue m (with_update id (increment_of a b e g)))
        (loop_fuel (2 * length rest + 10) (enough_fuel rest) rest (between c)
          (record { counted = refl; room = omega arith }) (omega arith) (omega arith)))

-- A WINDOW_UPDATE frame with the increment 0 and the flags 0, for a decoder between two frames that is
-- outside of a header block and allows frames of four bytes, is an error of its stream alone; but the
-- decoder then still stands in the payload of that frame, and the bytes behind it in the buffer are lost. The first four bytes of the next buffer, whatever frame they begin, are read as its payload: where
-- they hold another increment than 0, the decoder gives a WINDOW_UPDATE frame with that increment.
pub decode_after_stream_error :
    (id a b e g : ℕ) (lost rest : List ℕ) (c : Core)
    → id < 2 ^ 31
    → 4 ≤ c.max_frame_size
    → c.continuations.is_end_headers ≡ true
    → (increment_of a b e g == 0) ≡ false
    → (decode
          (held [] header_stage c)
          (header_bytes (update_header id) ++ (0 ∷ 0 ∷ 0 ∷ 0 ∷ [] ++ lost))
        ≡ (failed (stream_error id protocol_error), stuck id c))
      × (decode (stuck id c) (a ∷ b ∷ e ∷ g ∷ [] ++ rest)
          ≡ continue (decode (between c) rest) (with_update id (increment_of a b e g)))
decode_after_stream_error id a b e g lost rest c stream allowed closed nonzero = (
  decode_zero_increment id lost c stream allowed closed,
  stuck_reads id a b e g rest c nonzero closed,
)

-- A PRIORITY frame that follows the rules, on a stream and outside of a header block.
pub record IsPriority (c : Core) : Type 0 where
  pub kind : c.header.frame_type ≡ 2
  pub size : c.header.payload_length ≡ 5
  pub stream : (c.header.stream_id == 0) ≡ false
  pub closed : c.continuations.is_end_headers ≡ true

closed-in_order : (c : Core) → c.continuations.is_end_headers ≡ true → out_of_order c ≡ false
unfolding out_of_order
closed-in_order c closed = rw closed refl

saves_start :
    (xs : List ℕ) (c : Core)
    → IsPriority c
    → length xs < 5
    → decode (held [] payload_stage c) xs ≡ (returned [], held xs payload_stage c)
unfolding decode decode_loop round decode_frame_payload
saves_start xs c p short =
    let fuel : enough_fuel xs ≡ suc (2 * length xs + 2) = omega arith in
    let stops : ltb (length xs) (c.header.payload_length - 0) ≡ true = ground (arith, p.size) in
    let offset : 0 + length xs ≡ length xs = omega arith in
    rw (fuel, closed-in_order c p.closed, stops, offset) refl

refuses :
    (t : ℕ) (xs ys : List ℕ) (c : Core)
    → t ≡ 2
    → (c.header.stream_id == 0) ≡ false
    → (length ys == 5) ≡ false
    → decode_payload t ys (held xs payload_stage c)
      ≡ (failed (stream_error c.header.stream_id frame_size_error), held xs payload_stage c)
unfolding decode_payload handlers decode_priority_payload
refuses t xs ys c kind stream short = rw kind (
    rw stream (elim (Bool-cases (c.header.payload_length == 5)) [
      | inl e ↦ rw (e, short) refl
      | inr e ↦ rw e refl
    ]))

refuses_end :
    (xs ys : List ℕ) (c : Core)
    → IsPriority c
    → 0 < length xs
    → length xs + length ys ≡ 5
    → decode (held xs payload_stage c) ys
      ≡ (failed (stream_error c.header.stream_id frame_size_error), held xs payload_stage c)
unfolding decode decode_loop round decode_frame_payload
refuses_end xs ys c p some_bytes five =
    let fuel : enough_fuel ys ≡ suc (2 * length ys + 2) = omega arith in
    let n : c.header.payload_length - length xs ≡ length ys = omega (arith, p.size) in
    let reaches : ltb (length ys) (length ys) ≡ false = ground arith in
    let short : (length ys == 5) ≡ false = ground arith in
    rw
      (
        fuel,
        closed-in_order c p.closed,
        n,
        reaches,
        take_whole ys,
        refuses c.header.frame_type xs ys c p.kind p.stream short,
      )
      refl

-- Outside of a header block, a PRIORITY payload of five bytes on a stream other than 0, whose bytes come
-- in two buffers that are not empty, is refused with FRAME_SIZE_ERROR on that stream.
pub decode_cut_priority :
    (xs ys : List ℕ) (c : Core)
    → IsPriority c
    → 0 < length xs
    → 0 < length ys
    → length xs + length ys ≡ 5
    → feed (decode (held [] payload_stage c) xs) ys
      ≡ (failed (stream_error c.header.stream_id frame_size_error), held xs payload_stage c)
decode_cut_priority xs ys c p some_bytes more_bytes five =
    rw (saves_start xs c p (omega arith), refuses_end xs ys c p some_bytes five) refl

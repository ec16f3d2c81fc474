-- ===== src/Frame/Decoder/Written.antt =====
-- Frames that are written one after the other are read back.
use commonlibrary_rust_ylong.Common.{
  ℕ, ◌≤◌, ◌≡◌, refl, ap, ◌∙◌, List, [], ◌∷◌, ◌++◌, map, true, false, length, All,
}
use mathlib.Core.List.{append_assoc}
use commonlibrary_rust_ylong.H2.Fate.{returned, continue}
use commonlibrary_rust_ylong.Frame.{Frame}
use commonlibrary_rust_ylong.Frame.Format.{
  payload_bytes, header_for, header_bytes, frame_bytes, IsPlain,
}
use commonlibrary_rust_ylong.Frame.Handlers.{Core, FrameHeader, complete, reset_header}
use commonlibrary_rust_ylong.Frame.Decoder.{
  FrameDecoder, header_stage, out_of_order, decode, decode_loop, round, decode_frame_header,
}
use commonlibrary_rust_ylong.Frame.Decoder.Rounds.{held}
use commonlibrary_rust_ylong.Frame.Decoder.Reading.{decode_whole}
use commonlibrary_rust_ylong.Frame.Decoder.Plain.{payload-Reads}

-- Between two frames.
abbrev pub between : Core → FrameDecoder
between c = held [] header_stage (record c { header = reset_header })

in_order :
    (h : FrameHeader) (c : Core)
    → c.continuations.is_end_headers ≡ true
    → out_of_order (record c { header = h }) ≡ false
unfolding out_of_order
in_order h c closed = rw closed refl

decode-frame_bytes :
    (frame : Frame) (rest : List ℕ) (c : Core)
    → IsPlain frame
    → length (payload_bytes frame.payload) ≤ c.max_frame_size
    → c.continuations.is_end_headers ≡ true
    → decode (between c) (frame_bytes frame ++ rest)
      ≡ continue (decode (between c) rest) (λ more d. (returned (complete frame ∷ more), d))
unfolding frame_bytes header_for
decode-frame_bytes frame rest c plain allowed closed =
    let h : FrameHeader = header_for frame in
    let payload : List ℕ = payload_bytes frame.payload in
    ap (decode (between c)) (append_assoc (header_bytes h) payload rest)
    ∙ decode_whole h payload rest (record c { header = reset_header }) (record c { header = h })
        (complete frame) plain.length plain.stream allowed refl (in_order h c closed)
        (payload-Reads frame.payload (record c { header = h }) refl plain.carries)

unfoldable pub frames_bytes : List Frame → List ℕ
unfolding frame_bytes
frames_bytes [] = []
frames_bytes (frame ∷ frames) = frame_bytes frame ++ frames_bytes frames

-- Frames of the wire format without a header block or padding, no longer than the decoder allows and not
-- within an open header block, are read back from their bytes one after the other: the same frames,
-- in the same order, and nothing is left behind.
pub decode-frames_bytes :
    (frames : List Frame) (c : Core)
    → All IsPlain frames
    → All (λ frame. length (payload_bytes frame.payload) ≤ c.max_frame_size) frames
    → c.continuations.is_end_headers ≡ true
    → decode (between c) (frames_bytes frames) ≡ (returned (map complete frames), between c)
unfolding frames_bytes
decode-frames_bytes [] c plain allowed closed =
    unfold decode decode_loop round decode_frame_header in refl
decode-frames_bytes (frame ∷ frames) c (plain, plains) (fits, all_fit) closed =
    decode-frame_bytes frame (frames_bytes frames) c plain fits closed
    ∙ ap (λ m. continue m (λ more d. (returned (complete frame ∷ more), d)))
        (decode-frames_bytes frames c plains all_fit closed)

-- ===== src/Frame/RoundTrip.antt =====
-- What the encoder writes, the decoder reads back.
use commonlibrary_rust_ylong.Common.{
  ℕ, ◌+◌, ◌≤◌, ◌<◌, ◌≡◌, sym, ap, ◌∙◌, List, [], ◌∷◌, true, length, take,
}
use mathlib.Core.List.{append-nil}
use commonlibrary_rust_ylong.Common.Result.{ok, err}
use commonlibrary_rust_ylong.H2.Fate.{returned}
use commonlibrary_rust_ylong.Frame.{Frame}
use commonlibrary_rust_ylong.Frame.Format.{payload_bytes, frame_bytes, IsPlain}
use commonlibrary_rust_ylong.Frame.Handlers.{Core, complete}
use commonlibrary_rust_ylong.Frame.Decoder.{decode}
use commonlibrary_rust_ylong.Frame.Decoder.Written.{between, frames_bytes, decode-frames_bytes}
use commonlibrary_rust_ylong.Frame.Encoder.{FrameEncoder, Written, set_frame}
use commonlibrary_rust_ylong.Frame.Encoder.Run.{encode}
use commonlibrary_rust_ylong.Frame.Encoder.Run.Plain.{Wrote}
use commonlibrary_rust_ylong.Frame.Encoder.Run.Whole.{take_first}
use commonlibrary_rust_ylong.Frame.Encoder.Run.Encoded.{encode-Wrote}

-- The decoder gives just the frame for the bytes that were written.
abbrev pub IsReadBack : Core → Frame → Written → Type 0
IsReadBack c frame (err x, e) = ⊥
IsReadBack c frame (ok (n, buf), e) =
    decode (between c) (take n buf) ≡ (returned (complete frame ∷ []), between c)

-- A frame of the wire format without a header block or padding, no longer than the encoder and the decoder
-- allow, and encoded into a buffer with more room than it needs: the encoder succeeds, and a decoder
-- between two frames and outside of a header block gives the same frame for the bytes that were
-- written, and is between two frames again.
pub encode-IsReadBack :
    (frame : Frame) (e : FrameEncoder) (buf : List ℕ) (c : Core)
    → IsPlain frame
    → length (payload_bytes frame.payload) ≤ e.max_frame_size
    → length (payload_bytes frame.payload) ≤ c.max_frame_size
    → 9 + length (payload_bytes frame.payload) < length buf
    → c.continuations.is_end_headers ≡ true
    → IsReadBack c frame (encode buf (set_frame frame e))
unfolding frames_bytes
encode-IsReadBack frame e buf c plain allowed allowed' fits closed =
    go (encode buf (set_frame frame e)) (encode-Wrote frame e buf plain allowed fits)
  where
    go : (m : Written) → Wrote frame m → IsReadBack c frame m
    go (err x, e') w = w
    go (ok (n, out), e') (count, (rest, bytes), done) =
        ap (λ k. decode (between c) (take k out)) count
        ∙ ap (λ b. decode (between c) (take (length (frame_bytes frame)) b)) bytes
        ∙ ap (decode (between c))
            (take_first (frame_bytes frame) rest ∙ sym (append-nil (frame_bytes frame)))
        ∙ decode-frames_bytes (frame ∷ []) c (plain, tt) (allowed', tt) closed

-- ===== src/Tests/Frames.antt =====
-- Concrete input for the frame decoder.
use commonlibrary_rust_ylong.Common.{
  ℕ, ◌^◌, ◌≡◌, ◌⊎◌, refl, inl, List, [], ◌∷◌, ◌++◌, map, true, false, arith,
}
use commonlibrary_rust_ylong.H2.Error.{
  stream_error, connection_error, protocol_error, frame_size_error,
}
use commonlibrary_rust_ylong.H2.Fate.{returned, failed, continue}
use commonlibrary_rust_ylong.Frame.{
  Frame, enable_push, max_frame_size, data_bytes, settings, window_update,
}
use commonlibrary_rust_ylong.Frame.Numbers.{get_code_value, get_stream_id}
use commonlibrary_rust_ylong.Frame.Format.{
  payload_bytes, settings_bytes, setting_bytes, header_bytes,
}
use commonlibrary_rust_ylong.Frame.Handlers.{FrameHeader, no_continuations, Core, complete}
use commonlibrary_rust_ylong.Frame.Decoder.{
  FrameDecoder, header_stage, payload_stage, new, decode, decode_loop, round, decode_frame_header,
  decode_frame_payload, header_of, out_of_order,
}
use commonlibrary_rust_ylong.Frame.Decoder.Rounds.{held}
use commonlibrary_rust_ylong.Frame.Decoder.Absorb.{settle}
use commonlibrary_rust_ylong.Frame.Decoder.Cuts.{feed, decode_cut}
use commonlibrary_rust_ylong.Frame.Decoder.Total.{Leaves, new-IsSound, decode_frames_end}
use commonlibrary_rust_ylong.Frame.Decoder.Blocks.{ContinuesBlock, decode-ContinuesBlock}
use commonlibrary_rust_ylong.Frame.Decoder.Written.{between, frames_bytes, decode-frames_bytes}
use commonlibrary_rust_ylong.Frame.Decoder.Errors.{
  update_header, stuck, increment_of, with_update, decode_after_stream_error, decode_cut_priority,
}

-- A DATA frame of five bytes, cut within its payload.
abbrev data_start : List ℕ
data_start = 0 ∷ 0 ∷ 5 ∷ 0 ∷ 0 ∷ 0 ∷ 0 ∷ 0 ∷ 1 ∷ 104 ∷ 101 ∷ []

abbrev data_end : List ℕ
data_end = 108 ∷ 108 ∷ 111 ∷ []

decode_cut_example :
    settle (decode new (data_start ++ data_end)) ≡ settle (feed (decode new data_start) data_end)
unfolding decode decode_loop round decode_frame_header decode_frame_payload header_of out_of_order
    new no_continuations
decode_cut_example = decode_cut new data_start data_end new-IsSound.tidy refl

decode_frames_end_example : Leaves (decode new (data_start ++ data_end))
decode_frames_end_example = decode_frames_end new (data_start ++ data_end) new-IsSound

abbrev frames : List Frame
frames =
    record {
      id = 0;
      flags = 0;
      payload = settings (enable_push false ∷ max_frame_size (2 ^ 15) ∷ []);
    }
    ∷ record { id = 3; flags = 0; payload = window_update 70000 }
    ∷ record { id = 3; flags = 1; payload = data_bytes (104 ∷ 105 ∷ []) }
    ∷ []

decode-frames_bytes_example :
    decode (between new.core) (frames_bytes frames)
    ≡ (returned (map complete frames), between new.core)
unfolding payload_bytes settings_bytes setting_bytes new no_continuations
decode-frames_bytes_example =
    decode-frames_bytes frames new.core
      (
        record {
          stream = omega arith;
          length = omega arith;
          carries = (refl, inl refl, (omega arith, ((omega arith, omega arith), tt)));
        },
        (
          record {
            stream = omega arith;
            length = omega arith;
            carries = (omega arith, omega arith);
          },
          (
            record { stream = omega arith; length = omega arith; carries = (omega arith, refl) },
            tt,
          ),
        ),
      )
      (omega arith, (omega arith, (omega arith, tt))) refl

-- After HEADERS without END_HEADERS on stream 5.
abbrev open_decoder : FrameDecoder
open_decoder = record new {
  core = record new.core {
    continuations = record {
      flags = 1;
      is_end_stream = true;
      stream_id = 5;
      is_end_headers = false;
      promised_stream_id = 0;
    };
  };
}

-- CONTINUATION with END_HEADERS, and the indexed field `:method: GET`.
abbrev continuation : List ℕ
continuation = 0 ∷ 0 ∷ 1 ∷ 9 ∷ 4 ∷ 0 ∷ 0 ∷ 0 ∷ 5 ∷ 0x82 ∷ []

-- CONTINUATION of another stream.
abbrev foreign_header : FrameHeader
foreign_header = record { stream_id = 7; flags = 4; frame_type = 9; payload_length = 1 }

decode-ContinuesBlock_example :
    ContinuesBlock open_decoder.core.continuations (decode open_decoder continuation)
    × (((foreign_header.frame_type ≡ 9) × (foreign_header.stream_id ≡ 5))
        ⊎ ((decode
              (held [] header_stage open_decoder.core)
              (header_bytes foreign_header ++ (0x82 ∷ []))).0
            ≡ failed (connection_error protocol_error)))
unfolding new
decode-ContinuesBlock_example =
    decode-ContinuesBlock open_decoder continuation foreign_header (0x82 ∷ []) refl (omega arith)
      (omega arith) (omega arith)

-- The header of a PING frame, read as an increment.
decode_after_stream_error_example :
    (decode
        (held [] header_stage new.core)
        (header_bytes (update_header 1) ++ (0 ∷ 0 ∷ 0 ∷ 0 ∷ [] ++ []))
      ≡ (failed (stream_error 1 protocol_error), stuck 1 new.core))
    × (decode (stuck 1 new.core) (0 ∷ 0 ∷ 8 ∷ 6 ∷ [] ++ [])
        ≡ continue (decode (between new.core) []) (with_update 1 (increment_of 0 0 8 6)))
unfolding new no_continuations get_stream_id get_code_value
decode_after_stream_error_example =
    decode_after_stream_error 1 0 0 8 6 [] [] new.core (omega arith) (omega arith) refl refl

abbrev priority_core : Core
priority_core = record new.core {
  header = record { stream_id = 3; flags = 0; frame_type = 2; payload_length = 5 };
}

decode_cut_priority_example :
    feed (decode (held [] payload_stage priority_core) (0 ∷ 0 ∷ [])) (0 ∷ 1 ∷ 16 ∷ [])
    ≡ (failed (stream_error 3 frame_size_error), held (0 ∷ 0 ∷ []) payload_stage priority_core)
unfolding new no_continuations
decode_cut_priority_example =
    decode_cut_priority (0 ∷ 0 ∷ []) (0 ∷ 1 ∷ 16 ∷ []) priority_core
      (record { kind = refl; size = refl; stream = refl; closed = refl }) (omega arith)
      (omega arith) refl

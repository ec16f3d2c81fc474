-- ===== src/Frame/Decoder.antt =====
-- ylong_http/src/h2/decoder.rs: frames out of buffers that are cut anywhere.
pub mod Rounds
pub mod Absorb
pub mod Steps
pub mod Resume
pub mod Cuts
pub mod Lasts
pub mod Total
pub mod Blocks
pub mod Reading
pub mod Plain
pub mod Written
pub mod Errors
use commonlibrary_rust_ylong.Common.{
  ℕ, zero, suc, ◌+◌, ◌*◌, ◌-◌, ◌^◌, Option, none, some, List, [], ◌∷◌, ◌++◌, Bool, true, false, ltb,
  ◌&&◌, ◌||◌, ◌==◌, not, if◌then◌else◌, length, take, drop, get_elem?,
}
use commonlibrary_rust_ylong.Common.Result.{Result, ok, err}
use commonlibrary_rust_ylong.H2.Error.{
  H2Error, stream_error, connection_error, protocol_error, frame_size_error,
}
use commonlibrary_rust_ylong.H2.Fate.{Fate, returned, failed, panicked, out_of_fuel, continue}
use commonlibrary_rust_ylong.Hpack.Decoder
use commonlibrary_rust_ylong.Frame.{Frame}
use commonlibrary_rust_ylong.Frame.Numbers.{get_stream_id, default_max_frame_size, is_frame_size}
use commonlibrary_rust_ylong.Frame.Handlers.{
  FrameHeader, reset_header, Continuations, no_continuations, Core, FrameKind, Act, ping_frame,
  priority_frame, goaway_frame, window_update_frame, reset_frame, settings_frame, data_frame,
  continuation_frame, headers_frame, push_promise_frame,
}

pub data Stage : Type 0 where
  header_stage payload_stage : Stage

pub record FrameDecoder : Type 0 where
  pub buffer : List ℕ
  pub offset : ℕ
  pub stage : Stage
  pub core : Core

-- `FrameDecoder::default`, with `HpackDecoderLayer::new`.
unfoldable pub new : FrameDecoder
unfolding reset_header no_continuations
new = record {
  buffer = [];
  offset = 0;
  stage = header_stage;
  core = record {
    max_frame_size = default_max_frame_size;
    header = reset_header;
    hpack = Decoder.with_max_size 4096 (16 * 2 ^ 20);
    continuations = no_continuations;
  };
}

unfoldable pub set_max_frame_size : ℕ → FrameDecoder → Result FrameDecoder H2Error
unfolding is_frame_size
set_max_frame_size size d =
    if not (is_frame_size size)
    then err (connection_error protocol_error)
    else ok (record d { core = record d.core { max_frame_size = size } })

unfoldable pub set_max_header_list_size : ℕ → FrameDecoder → FrameDecoder
set_max_header_list_size size d = record d {
  core = record d.core { hpack = Decoder.update_header_list_size d.core.hpack size };
}

abbrev pub of_core : {A : Type 0} → FrameDecoder → Fate A × Core → Fate A × FrameDecoder
of_core d (r, c) = (r, record d { core = c })

-- `self.buffer.extend_from_slice(buf)` and `self.offset += buf.len()`.
abbrev pub save : List ℕ → FrameDecoder → FrameDecoder
save buf d = record d { buffer = d.buffer ++ buf; offset = d.offset + length buf }

-- How the handlers put the saved bytes before the new ones.
abbrev pub joined : (List ℕ → Act FrameKind) → List ℕ → FrameDecoder → Fate FrameKind × FrameDecoder
joined f buf d =
    if d.offset == 0
    then of_core d (f buf d.core)
    else of_core (save buf d) (f (save buf d).buffer d.core)

abbrev pub on_connection :
    (List ℕ → FrameDecoder → Fate FrameKind × FrameDecoder)
    → List ℕ
    → FrameDecoder
    → Fate FrameKind × FrameDecoder
on_connection f buf d =
    if d.core.header.stream_id == 0 then f buf d else (failed (connection_error protocol_error), d)

abbrev pub on_stream :
    (List ℕ → FrameDecoder → Fate FrameKind × FrameDecoder)
    → List ℕ
    → FrameDecoder
    → Fate FrameKind × FrameDecoder
on_stream f buf d =
    if d.core.header.stream_id == 0 then (failed (connection_error protocol_error), d) else f buf d

-- PRIORITY is the one frame whose length is tested before the saved bytes are put before the new ones.
unfoldable pub decode_priority_payload : List ℕ → FrameDecoder → Fate FrameKind × FrameDecoder
unfolding priority_frame
decode_priority_payload buf d =
    if not (d.core.header.payload_length == 5) || not (length buf == 5)
    then (failed (stream_error d.core.header.stream_id frame_size_error), d)
    else joined priority_frame buf d

abbrev pub Handler : Type 0
Handler = List ℕ → FrameDecoder → Fate FrameKind × FrameDecoder

-- The arms of the `match` in `decode_frame_payload` for the frame types from 0 to 9.
unfoldable pub handlers : List Handler
unfolding ping_frame goaway_frame window_update_frame reset_frame settings_frame data_frame
    continuation_frame headers_frame push_promise_frame decode_priority_payload
handlers =
    on_stream (joined data_frame)
    ∷ on_stream (joined headers_frame)
    ∷ on_stream decode_priority_payload
    ∷ on_stream (joined reset_frame)
    ∷ on_connection (joined settings_frame)
    ∷ on_stream (joined push_promise_frame)
    ∷ on_connection (joined ping_frame)
    ∷ on_connection (joined goaway_frame)
    ∷ joined window_update_frame
    ∷ on_stream (joined continuation_frame)
    ∷ []

abbrev pub arm : Option Handler → Handler
arm none buf d = (failed (connection_error protocol_error), d)
arm (some handler) buf d = handler buf d

unfoldable pub decode_payload : ℕ → Handler
unfolding handlers
decode_payload frame_type = arm (get_elem? handlers frame_type)

-- `if self.offset != 0 { self.offset = 0; self.buffer.clear() }`.
abbrev pub release : FrameDecoder → FrameDecoder
release d = if d.offset == 0 then d else record d { buffer = []; offset = 0 }

unfoldable pub out_of_order : Core → Bool
out_of_order c =
    not c.continuations.is_end_headers
    && (not (c.header.stream_id == c.continuations.stream_id) || not (c.header.frame_type == 9))

abbrev pub finish_payload : FrameDecoder → FrameDecoder
finish_payload d = release (record d { core = record d.core { header = reset_header } })

abbrev pub finished :
    List ℕ → FrameKind → FrameDecoder → Fate (Option (List ℕ × FrameKind)) × FrameDecoder
finished rest kind d = (returned (some (rest, kind)), finish_payload d)

-- The subtraction does not go below 0: no more is saved than the payload has.
unfoldable pub decode_frame_payload :
    List ℕ → FrameDecoder → Fate (Option (List ℕ × FrameKind)) × FrameDecoder
unfolding decode_payload out_of_order reset_header
decode_frame_payload buf d =
    let n = d.core.header.payload_length - d.offset in
    if out_of_order d.core
    then (failed (connection_error protocol_error), d)
    else if ltb (length buf) n
    then (returned none, save buf d)
    else continue (decode_payload d.core.header.frame_type (take n buf) d) (finished (drop n buf))

-- The nine bytes; `none` stands for an index out of bounds.
unfoldable pub header_of : List ℕ → Option FrameHeader
unfolding get_stream_id
header_of (a ∷ b ∷ c ∷ t ∷ f ∷ s1 ∷ s2 ∷ s3 ∷ s4 ∷ _) = some (record {
  stream_id = get_stream_id s1 s2 s3 s4;
  flags = f;
  frame_type = t;
  payload_length = a * 2 ^ 16 + b * 2 ^ 8 + c;
})
header_of _ = none

abbrev pub take_header :
    Option FrameHeader → List ℕ → FrameDecoder → Fate (Option (List ℕ)) × FrameDecoder
take_header none rest d = (panicked, d)
take_header (some h) rest d =
    if ltb d.core.max_frame_size h.payload_length
    then (failed (connection_error frame_size_error), d)
    else (returned (some rest), release (record d { core = record d.core { header = h } }))

-- The offset is below 9, so the subtraction does not go below 0.
unfoldable pub decode_frame_header : List ℕ → FrameDecoder → Fate (Option (List ℕ)) × FrameDecoder
unfolding header_of
decode_frame_header buf d =
    let n = 9 - d.offset in
    if ltb (length buf) n
    then (returned none, save buf d)
    else if d.offset == 0
    then take_header (header_of buf) (drop n buf) d
    else (let bytes = d.buffer ++ take n buf in
        take_header (header_of bytes) (drop n buf) (record d { buffer = bytes }))

abbrev pub header_read :
    Option (List ℕ) → FrameDecoder → Fate (Option (List ℕ × List FrameKind)) × FrameDecoder
header_read none d = (returned none, d)
header_read (some rest) d = (returned (some (rest, [])), record d { stage = payload_stage })

abbrev pub payload_read :
    Option (List ℕ × FrameKind)
    → FrameDecoder
    → Fate (Option (List ℕ × List FrameKind)) × FrameDecoder
payload_read none d = (returned none, d)
payload_read (some (rest, frame)) d =
    (returned (some (rest, frame ∷ [])), record d { stage = header_stage })

-- One round of the loop of `decode`: the rest of the buffer and the frame, if any, or a `break`.
unfoldable pub round :
    List ℕ → FrameDecoder → Fate (Option (List ℕ × List FrameKind)) × FrameDecoder
unfolding decode_frame_header decode_frame_payload
round buf d = elim d.stage [
  | header_stage ↦ continue (decode_frame_header buf d) header_read
  | payload_stage ↦ continue (decode_frame_payload buf d) payload_read
]

abbrev pub after_round :
    (List ℕ → FrameDecoder → Fate (List FrameKind) × FrameDecoder)
    → Option (List ℕ × List FrameKind)
    → FrameDecoder
    → Fate (List FrameKind) × FrameDecoder
after_round next none d = (returned [], d)
after_round next (some (rest, frames)) d =
    continue (next rest d) (λ more d'. (returned (frames ++ more), d'))

unfoldable pub decode_loop : ℕ → List ℕ → FrameDecoder → Fate (List FrameKind) × FrameDecoder
unfolding round
decode_loop zero buf d = (out_of_fuel, d)
decode_loop (suc fuel) buf d = continue (round buf d) (after_round (decode_loop fuel))

-- A header takes a byte or more, and a payload may be empty.
abbrev pub enough_fuel : List ℕ → ℕ
enough_fuel buf = 2 * length buf + 3

unfoldable pub decode : FrameDecoder → List ℕ → Fate (List FrameKind) × FrameDecoder
unfolding decode_loop
decode d buf = decode_loop (enough_fuel buf) buf d

-- ===== src/Frame/Handlers.antt =====
-- ylong_http/src/h2/decoder.rs: what each frame type does with its whole payload.
pub mod Ends
use commonlibrary_rust_ylong.Common.{
  ℕ, suc, ◌+◌, ◌*◌, ◌-◌, ◌%◌, ◌^◌, Option, none, some, List, [], ◌∷◌, Bool, true, false, ltb, leb,
  ◌&&◌, ◌||◌, ◌==◌, not, if◌then◌else◌, length, get_elem?, take, drop,
}
use Prim.Native.Nat.{bit_or}
use commonlibrary_rust_ylong.Common.Result.{Result, ok, err}
use commonlibrary_rust_ylong.H2.Error.{
  H2Error, stream_error, connection_error, protocol_error, frame_size_error,
}
use commonlibrary_rust_ylong.H2.Fate.{Fate, returned, failed, panicked, out_of_fuel, continue}
use commonlibrary_rust_ylong.H2.Parts.{Parts}
use commonlibrary_rust_ylong.Hpack.Decoder
use commonlibrary_rust_ylong.Hpack.Decoder.{HpackDecoder}
use commonlibrary_rust_ylong.Frame.{
  Setting, Payload, headers, data_bytes, priority, rst_stream, ping, settings, goaway,
  window_update, push_promise, Frame, end_stream_mask, end_headers_mask, padded_mask,
  headers_priority_mask, ack_mask, has_flag,
}
use commonlibrary_rust_ylong.Frame.Numbers.{get_code_value, get_stream_id, get_setting}

pub record FrameHeader : Type 0 where
  pub stream_id : ℕ
  pub flags : ℕ
  pub frame_type : ℕ
  pub payload_length : ℕ

unfoldable pub reset_header : FrameHeader
reset_header = record { stream_id = 0; flags = 0; frame_type = 0; payload_length = 0 }

pub record Continuations : Type 0 where
  pub flags : ℕ
  pub is_end_stream : Bool
  pub stream_id : ℕ
  pub is_end_headers : Bool
  pub promised_stream_id : ℕ

-- `Continuations::new` and `reset`.
unfoldable pub no_continuations : Continuations
no_continuations = record {
  flags = 0;
  is_end_stream = false;
  stream_id = 0;
  is_end_headers = true;
  promised_stream_id = 0;
}

-- What the handlers use of the decoder, apart from the saved bytes.
pub record Core : Type 0 where
  pub max_frame_size : ℕ
  pub header : FrameHeader
  pub hpack : HpackDecoder
  pub continuations : Continuations

pub data FrameKind : Type 0 where
  complete : Frame → FrameKind
  partial : FrameKind

abbrev pub Act : Type 0 → Type 0
Act A = Core → Fate A × Core

infixl 5 ◌>>=◌ ◌>>◌
abbrev pub ◌>>=◌ : {A B : Type 0} → Act A → (A → Act B) → Act B
◌>>=◌ m f c = continue (m c) f

abbrev pub ◌>>◌ : {A B : Type 0} → Act A → Act B → Act B
m >> k = m >>= λ _. k

abbrev pub pure : {A : Type 0} → A → Act A
pure a c = (returned a, c)

-- An index out of bounds panics.
abbrev pub or_panic : {A : Type 0} → Option A → Act A
or_panic none c = (panicked, c)
or_panic (some a) c = (returned a, c)

abbrev pub or_fail : {A : Type 0} → Result A H2Error → Act A
or_fail (ok a) c = (returned a, c)
or_fail (err e) c = (failed e, c)

abbrev pub of_hpack : {A : Type 0} → Core → Fate A × HpackDecoder → Fate A × Core
of_hpack c (r, h) = (r, record c { hpack = h })

abbrev pub hpack_decode : List ℕ → Act (Unit {0})
hpack_decode buf c = of_hpack c (Decoder.decode c.hpack buf)

abbrev pub hpack_finish : Act Parts
hpack_finish c = of_hpack c (Decoder.finish c.hpack)

-- `&buf[first..last]`.
unfoldable pub slice : ℕ → ℕ → List ℕ → Option (List ℕ)
slice first last buf =
    if leb first last && leb last (length buf) then some (drop first (take last buf)) else none

unfoldable pub complete_frame : Payload → Act FrameKind
complete_frame p c = (
  returned (complete (record { id = c.header.stream_id; flags = c.header.flags; payload = p })),
  c,
)

-- Where the fragment begins and ends, `first` without padding.
unfoldable pub padded_bounds : ℕ → List ℕ → Act (ℕ × ℕ)
padded_bounds first buf c =
    if has_flag padded_mask c.header.flags
    then continue (or_panic (get_elem? buf 0) c) (λ padded_length c'.
      if leb c'.header.payload_length padded_length
      then (failed (connection_error protocol_error), c')
      else (returned (suc first, c'.header.payload_length - padded_length), c'))
    else (returned (first, c.header.payload_length), c)

unfoldable pub ping_frame : List ℕ → Act FrameKind
unfolding complete_frame
ping_frame buf c =
    if not (c.header.payload_length == 8) || not (length buf == 8)
    then (failed (connection_error frame_size_error), c)
    else complete_frame (ping buf) c

unfoldable pub priority_payload : List ℕ → Option Payload
unfolding get_stream_id
priority_payload (a ∷ b ∷ c ∷ d ∷ weight ∷ _) =
    some (priority (has_flag 0x80 a) (get_stream_id a b c d) weight)
priority_payload _ = none

-- The part of `decode_priority_payload` behind its tests.
unfoldable pub priority_frame : List ℕ → Act FrameKind
unfolding complete_frame priority_payload
priority_frame buf = do p ← or_panic (priority_payload buf); complete_frame p

unfoldable pub goaway_payload : List ℕ → Option Payload
unfolding get_stream_id get_code_value
goaway_payload (a ∷ b ∷ c ∷ d ∷ e ∷ f ∷ g ∷ h ∷ debug_data) =
    some (goaway (get_code_value e f g h) (get_stream_id a b c d) debug_data)
goaway_payload _ = none

unfoldable pub goaway_frame : List ℕ → Act FrameKind
unfolding complete_frame goaway_payload
goaway_frame buf c =
    if ltb c.header.payload_length 8 || ltb (length buf) 8
    then (failed (connection_error frame_size_error), c)
    else continue (or_panic (goaway_payload buf) c) complete_frame

-- `get_stream_id` of the first four bytes.
unfoldable pub stream_id_of : List ℕ → Option ℕ
unfolding get_stream_id
stream_id_of (a ∷ b ∷ c ∷ d ∷ _) = some (get_stream_id a b c d)
stream_id_of _ = none

unfoldable pub code_value_of : List ℕ → Option ℕ
unfolding get_code_value
code_value_of (a ∷ b ∷ c ∷ d ∷ _) = some (get_code_value a b c d)
code_value_of _ = none

unfoldable pub window_update_frame : List ℕ → Act FrameKind
unfolding complete_frame stream_id_of
window_update_frame buf c =
    if not (c.header.payload_length == 4) || not (length buf == 4)
    then (failed (connection_error frame_size_error), c)
    else continue (or_panic (stream_id_of buf) c) (λ increment_size c'.
      if increment_size == 0
      then (failed (stream_error c'.header.stream_id protocol_error), c')
      else complete_frame (window_update increment_size) c')

unfoldable pub reset_frame : List ℕ → Act FrameKind
unfolding complete_frame code_value_of
reset_frame buf c =
    if not (c.header.payload_length == 4) || not (length buf == 4)
    then (failed (connection_error frame_size_error), c)
    else continue (or_panic (code_value_of buf) c) (λ code. complete_frame (rst_stream code))

abbrev push_setting : Option Setting → List Setting → List Setting
push_setting none l = l
push_setting (some s) l = s ∷ l

-- The loop over `buf.chunks(6)`; a shorter chunk is indexed out of bounds.
unfoldable pub decode_settings : List ℕ → Act (List Setting)
unfolding get_setting get_code_value
decode_settings [] = pure []
decode_settings (a ∷ b ∷ c ∷ d ∷ e ∷ f ∷ rest) = do
  s ← or_fail (get_setting (bit_or (a * 2 ^ 8) b) (get_code_value c d e f))
  l ← decode_settings rest
  pure (push_setting s l)
decode_settings _ = or_panic none

unfoldable pub settings_frame : List ℕ → Act FrameKind
unfolding complete_frame decode_settings
settings_frame buf c =
    if not (c.header.payload_length % 6 == 0)
    then (failed (connection_error frame_size_error), c)
    else if has_flag ack_mask c.header.flags
    then (if not (c.header.payload_length == 0) || not (length buf == 0)
        then (failed (connection_error frame_size_error), c)
        else complete_frame (settings []) c)
    else continue (decode_settings buf c) (λ l. complete_frame (settings l))

unfoldable pub data_frame : List ℕ → Act FrameKind
unfolding complete_frame padded_bounds slice
data_frame buf c =
    if c.header.payload_length == 0
    then complete_frame (data_bytes []) c
    else continue (padded_bounds 0 buf c) (λ (first, last). do
      bytes ← or_panic (slice first last buf)
      complete_frame (data_bytes bytes))

-- The frame that a CONTINUATION completes.
unfoldable pub continued_frame : Continuations → Parts → Frame
continued_frame k parts =
    if k.promised_stream_id == 0
    then record { id = k.stream_id; flags = k.flags; payload = headers parts }
    else record {
      id = k.stream_id;
      flags = k.flags;
      payload = push_promise k.promised_stream_id parts;
    }

unfoldable pub continuation_frame : List ℕ → Act FrameKind
unfolding continued_frame no_continuations
continuation_frame buf c =
    if has_flag end_headers_mask c.header.flags
    then continue (hpack_decode buf c) (λ _ c1. continue (hpack_finish c1) (λ parts c2. (
      returned (complete (continued_frame c2.continuations parts)),
      record c2 { continuations = no_continuations },
    )))
    else continue (hpack_decode buf c) (λ _. pure partial)

-- What HEADERS without END_HEADERS leaves for its CONTINUATION frames.
unfoldable pub headers_open : Core → Core
headers_open c = record c {
  continuations = record c.continuations {
    flags = c.header.flags;
    is_end_stream = has_flag end_stream_mask c.header.flags;
    is_end_headers = false;
    stream_id = c.header.stream_id;
  };
}

headers_fragment : List ℕ → Act FrameKind
unfolding complete_frame headers_open
headers_fragment fragment c =
    if has_flag end_headers_mask c.header.flags
    then (do hpack_decode fragment; parts ← hpack_finish; complete_frame (headers parts)) c
    else (do hpack_decode fragment; pure partial) (headers_open c)

unfoldable pub headers_frame : List ℕ → Act FrameKind
unfolding padded_bounds slice headers_fragment
headers_frame buf c = continue (padded_bounds 0 buf c) (λ (start, last) c1.
    let first = if has_flag headers_priority_mask c1.header.flags then start + 5 else start in
    if ltb last first
    then (failed (connection_error protocol_error), c1)
    else continue (or_panic (slice first last buf) c1) headers_fragment)

unfoldable pub promise_open : ℕ → Core → Core
promise_open promised c = record c {
  continuations = record c.continuations {
    flags = c.header.flags;
    is_end_headers = false;
    stream_id = c.header.stream_id;
    promised_stream_id = promised;
  };
}

push_promise_framing : ℕ → Act FrameKind
unfolding complete_frame promise_open
push_promise_framing promised c =
    if has_flag end_headers_mask c.header.flags
    then continue (hpack_finish c) (λ parts. complete_frame (push_promise promised parts))
    else (returned partial, promise_open promised c)

-- The code decodes the whole payload as a fragment, with the promised stream and the padding.
unfoldable pub push_promise_frame : List ℕ → Act FrameKind
unfolding padded_bounds stream_id_of push_promise_framing
push_promise_frame buf c = continue (padded_bounds 4 buf c) (λ (first, last) c1.
    if ltb last first
    then (failed (connection_error protocol_error), c1)
    else continue (hpack_decode buf c1) (λ _ c2.
      let at_id = if has_flag padded_mask c2.header.flags then drop 1 buf else buf in
      continue (or_panic (stream_id_of at_id) c2) (λ promised c3.
        if promised == 0
        then (failed (connection_error protocol_error), c3)
        else push_promise_framing promised c3)))

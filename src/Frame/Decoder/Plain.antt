-- ===== src/Frame/Decoder/Plain.antt =====
-- The decoder reads back each frame of the wire format.
use commonlibrary_rust_ylong.Common.{
  ℕ, ◌+◌, ◌*◌, ◌%◌, ◌-◌, ◌^◌, ◌<◌, ◌≡◌, refl, ap, ◌∙◌, some, inl, inr, List, [], ◌∷◌, Bool, true,
  false, Bool-cases, ltb, leb, ◌==◌, length, take, All, arith,
}
use commonlibrary_rust_ylong.Common.Result.{ok}
use Prim.Native.Nat.{bit_and, bit_or}
use commonlibrary_rust_ylong.Common.Bits.{of_top_bit}
use commonlibrary_rust_ylong.Common.Masks.{bit_and-ones, bit_or-join}
use commonlibrary_rust_ylong.H2.Fate.{returned}
use commonlibrary_rust_ylong.Frame.{
  Setting, header_table_size, max_concurrent_streams, initial_window_size, max_frame_size,
  max_header_list_size, enable_push, Payload, headers, data_bytes, priority, rst_stream, ping,
  settings, goaway, window_update, push_promise, ack_mask, has_flag,
}
use commonlibrary_rust_ylong.Frame.Numbers.{get_setting, is_frame_size, get_stream_id}
use commonlibrary_rust_ylong.Frame.Numbers.Bytes.{
  byte_at, get_code_value-byte_at, get_stream_id-byte_at,
}
use commonlibrary_rust_ylong.Frame.Format.{
  exclusive_bit, setting_code, setting_value, setting_bytes, settings_bytes, type_code,
  payload_bytes, IsSetting, Carries,
}
use commonlibrary_rust_ylong.Frame.Handlers.{
  Core, complete, decode_settings, slice, complete_frame, padded_bounds, ping_frame, goaway_frame,
  window_update_frame, reset_frame, settings_frame, data_frame, priority_frame, priority_payload,
  goaway_payload, code_value_of, stream_id_of,
}
use commonlibrary_rust_ylong.Frame.Decoder.{
  payload_stage, handlers, decode_payload, decode_priority_payload,
}
use commonlibrary_rust_ylong.Frame.Decoder.Rounds.{held}

get_setting_lem :
    (s : Setting) → IsSetting s → get_setting (setting_code s) (setting_value s) ≡ ok (some s)
unfolding get_setting setting_code is_frame_size
get_setting_lem (header_table_size v) h = refl
get_setting_lem (enable_push true) h = refl
get_setting_lem (enable_push false) h = refl
get_setting_lem (max_concurrent_streams v) h = refl
get_setting_lem (initial_window_size v) h =
    let fits : ltb (2 ^ 31 - 1) v ≡ false = ground arith in rw fits refl
get_setting_lem (max_frame_size v) h =
    let low : leb (2 ^ 14) v ≡ true = ground (arith, h.0) in
    let high : leb v (2 ^ 24 - 1) ≡ true = ground (arith, h.1) in rw (low, high) refl
get_setting_lem (max_header_list_size v) h = refl

read_identifier : (s : Setting) → bit_or (0 * 2 ^ 8) (setting_code s) ≡ setting_code s
unfolding setting_code
read_identifier s = bit_or-join 8 0 (setting_code s) (small s) ∙ omega arith
  where
    small : (s' : Setting) → setting_code s' < 2 ^ 8
    small (header_table_size v) = omega arith
    small _ = omega arith

value_small : (s : Setting) → IsSetting s → setting_value s < 2 ^ 32
value_small (header_table_size v) h = h
value_small (enable_push true) h = omega arith
value_small (enable_push false) h = omega arith
value_small (max_concurrent_streams v) h = h
value_small (initial_window_size v) h = omega arith
value_small (max_frame_size v) h = omega (arith, h.1)
value_small (max_header_list_size v) h = h

decode_settings-bytes :
    (l : List Setting) (c : Core)
    → All IsSetting l
    → decode_settings (settings_bytes l) c ≡ (returned l, c)
unfolding decode_settings settings_bytes setting_bytes
decode_settings-bytes [] c h = refl
decode_settings-bytes (s ∷ l) c (hs, hl) =
    rw
      (
        read_identifier s,
        get_code_value-byte_at (setting_value s) (value_small s hs),
        get_setting_lem s hs,
        decode_settings-bytes l c hl,
      )
      refl

pub length-settings_bytes : (l : List Setting) → length (settings_bytes l) ≡ 6 * length l
unfolding settings_bytes setting_bytes
length-settings_bytes [] = refl
length-settings_bytes (s ∷ l) = omega (arith, length-settings_bytes l)

-- What a handler gives for the payload of a frame of the format.
abbrev pub Reads : Payload → Core → Type 0
Reads p c =
    Carries p c.header.stream_id c.header.flags
    → decode_payload (type_code p) (payload_bytes p) (held [] payload_stage c) ≡ (
      returned (complete (record { id = c.header.stream_id; flags = c.header.flags; payload = p })),
      held [] payload_stage c,
    )

settings-Reads :
    (l : List Setting) (c : Core)
    → c.header.payload_length ≡ length (settings_bytes l)
    → Reads (settings l) c
unfolding decode_payload handlers settings_frame complete_frame type_code payload_bytes
    settings_bytes
settings-Reads [] c len (zero_id, ack, ok_settings) =
    let id : (c.header.stream_id == 0) ≡ true = ground arith in
    let sixes : (c.header.payload_length % 6 == 0) ≡ true = ground arith in
    let nothing : (c.header.payload_length == 0) ≡ true = ground arith in
    elim (Bool-cases (has_flag ack_mask c.header.flags)) [
      | inl a ↦ rw (id, sixes, a, nothing) refl
      | inr plain ↦ rw (id, sixes, plain) refl
    ]
settings-Reads (s ∷ l) c len (zero_id, ack, ok_settings) =
    let id : (c.header.stream_id == 0) ≡ true = ground arith in
    let sixes : (c.header.payload_length % 6 == 0) ≡ true =
      ground (arith, length-settings_bytes (s ∷ l)) in
    let plain : has_flag ack_mask c.header.flags ≡ false = elim ack [
      | inl a ↦ a
      | inr nil ↦ absurd (omega arith)
    ] in
    rw (id, sixes, plain) (rw (decode_settings-bytes (s ∷ l) c ok_settings, complete_frame) refl)

pub take_whole : (l : List ℕ) → take (length l) l ≡ l
take_whole [] = refl
take_whole (x ∷ l) = ap (λ t. x ∷ t) (take_whole l)

slice_whole : (l : List ℕ) → slice 0 (length l) l ≡ some l
unfolding slice
slice_whole l =
    let fits : leb (length l) (length l) ≡ true = ground arith in
    let start : leb 0 (length l) ≡ true = ground arith in rw (start, fits, take_whole l) refl

data-Reads : (l : List ℕ) (c : Core) → c.header.payload_length ≡ length l → Reads (data_bytes l) c
unfolding decode_payload handlers data_frame complete_frame padded_bounds type_code payload_bytes
data-Reads [] c len (some_id, plain) =
    let id : (c.header.stream_id == 0) ≡ false = ground arith in
    let nothing : (c.header.payload_length == 0) ≡ true = ground arith in rw (id, nothing) refl
data-Reads (x ∷ l) c len (some_id, plain) =
    let id : (c.header.stream_id == 0) ≡ false = ground arith in
    let something : (c.header.payload_length == 0) ≡ false = ground arith in
    let whole : slice 0 c.header.payload_length (x ∷ l) ≡ some (x ∷ l) =
      ap (λ n. slice 0 n (x ∷ l)) len ∙ slice_whole (x ∷ l) in
    rw (id, something, plain, whole) refl

ping-Reads : (l : List ℕ) (c : Core) → c.header.payload_length ≡ length l → Reads (ping l) c
unfolding decode_payload handlers ping_frame complete_frame type_code payload_bytes
ping-Reads l c len (zero_id, eight) =
    let id : (c.header.stream_id == 0) ≡ true = ground arith in
    let size : (c.header.payload_length == 8) ≡ true = ground arith in
    let size' : (length l == 8) ≡ true = ground arith in rw (id, size, size') refl

rst_stream-Reads : (code : ℕ) (c : Core) → c.header.payload_length ≡ 4 → Reads (rst_stream code) c
unfolding decode_payload handlers reset_frame code_value_of complete_frame type_code payload_bytes
rst_stream-Reads code c len (some_id, small) =
    let id : (c.header.stream_id == 0) ≡ false = ground arith in
    let size : (c.header.payload_length == 4) ≡ true = ground arith in
    rw (id, size, get_code_value-byte_at code small) refl

window_update-Reads :
    (increment : ℕ) (c : Core) → c.header.payload_length ≡ 4 → Reads (window_update increment) c
unfolding decode_payload handlers window_update_frame stream_id_of complete_frame type_code
    payload_bytes
window_update-Reads increment c len (some_increment, small) =
    let size : (c.header.payload_length == 4) ≡ true = ground arith in
    let nonzero : (increment == 0) ≡ false = ground arith in
    rw (size, get_stream_id-byte_at increment small, nonzero) refl

goaway-Reads :
    (code last : ℕ) (debug : List ℕ) (c : Core)
    → c.header.payload_length ≡ 8 + length debug
    → Reads (goaway code last debug) c
unfolding decode_payload handlers goaway_frame goaway_payload complete_frame type_code payload_bytes
goaway-Reads code last debug c len (zero_id, small, stream) =
    let id : (c.header.stream_id == 0) ≡ true = ground arith in
    let size : ltb c.header.payload_length 8 ≡ false = ground arith in
    let size' : ltb (length (payload_bytes (goaway code last debug))) 8 ≡ false = ground arith in
    rw (id, size, get_code_value-byte_at code small, get_stream_id-byte_at last stream, size') refl

read_exclusive :
    (exclusive : Bool) (b : ℕ) → b < 128 → has_flag 0x80 (exclusive_bit exclusive + b) ≡ exclusive
read_exclusive true b small =
    let top : bit_and 0x80 (128 + b) ≡ 128 = of_top_bit (128 + b) (omega arith) ∙ omega arith in
    rw top refl
read_exclusive false b small =
    let top : bit_and 0x80 (0 + b) ≡ 0 = of_top_bit (0 + b) (omega arith) ∙ omega arith in
    rw top refl

read_dependency :
    (exclusive : Bool) (dependency : ℕ)
    → dependency < 2 ^ 31
    → get_stream_id
        (exclusive_bit exclusive + byte_at 24 dependency)
        (byte_at 16 dependency)
        (byte_at 8 dependency)
        (byte_at 0 dependency)
      ≡ dependency
unfolding get_stream_id
read_dependency exclusive dependency small =
    let top : byte_at 24 dependency < 128 = omega arith in
    let masked : bit_and (exclusive_bit exclusive + byte_at 24 dependency) 0x7f
        ≡ byte_at 24 dependency =
      bit_and-ones 7 (exclusive_bit exclusive + byte_at 24 dependency) ∙ low exclusive top in
    rw masked (get_code_value-byte_at dependency (omega arith))
  where
    low :
        (e : Bool)
        → byte_at 24 dependency < 128
        → (exclusive_bit e + byte_at 24 dependency) % 2 ^ 7 ≡ byte_at 24 dependency
    low true h = omega arith
    low false h = omega arith

priority-Reads :
    (exclusive : Bool) (dependency weight : ℕ) (c : Core)
    → c.header.payload_length ≡ 5
    → Reads (priority exclusive dependency weight) c
unfolding decode_payload handlers decode_priority_payload priority_frame priority_payload
    complete_frame type_code payload_bytes
priority-Reads exclusive dependency weight c len (some_id, small) =
    let id : (c.header.stream_id == 0) ≡ false = ground arith in
    let size : (c.header.payload_length == 5) ≡ true = ground arith in
    rw
      (
        id,
        size,
        read_exclusive exclusive (byte_at 24 dependency) (omega arith),
        read_dependency exclusive dependency small,
      )
      refl

pub payload-Reads :
    (p : Payload) (c : Core) → c.header.payload_length ≡ length (payload_bytes p) → Reads p c
unfolding payload_bytes
payload-Reads (data_bytes l) c len = data-Reads l c len
payload-Reads (headers parts) c len = λ h. absurd h
payload-Reads (priority exclusive dependency weight) c len =
    priority-Reads exclusive dependency weight c len
payload-Reads (rst_stream code) c len = rst_stream-Reads code c len
payload-Reads (settings l) c len = settings-Reads l c len
payload-Reads (push_promise id parts) c len = λ h. absurd h
payload-Reads (ping l) c len = ping-Reads l c len
payload-Reads (goaway code last debug) c len = goaway-Reads code last debug c (omega arith)
payload-Reads (window_update increment) c len = window_update-Reads increment c len

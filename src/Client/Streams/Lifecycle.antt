-- ===== src/Client/Streams/Lifecycle.antt =====
-- The state changes by frames, against the stream states of RFC 9113, section 5.1.
use mathlib.Core.Path.{subst}
use commonlibrary_rust_ylong.Common.{
  ℕ, ◌+◌, ◌-◌, ◌%◌, ◌^◌, ◌≡◌, refl, sym, some, Option-cases, inl, inr, List, [], ◌∷◌, Bool, true,
  false, Bool-cases, ltb, ◌==◌, if◌then◌else◌,
}
use commonlibrary_rust_ylong.Client.Streams.{
  FrameRecvState, H2StreamState, idle, opened, reserved_remote, local_half_closed,
  remote_half_closed, closed, wait_headers, wait_data, local_rst, local_go_away, Parameters, Stream,
  Streams, stream_at, set_stream, Change, becomes, ends, ignored, refused, send_headers_change,
  send_data_change, recv_headers_change, recv_data_change, protocol_failure, apply_change,
  on_stream, send_headers_frame, send_data_frame, recv_headers, recv_data,
}

pub data Side : Type 0 where
  local remote : Side

abbrev pub other_side : Side → Side
other_side local = remote
other_side remote = local

-- The stream states of the RFC; `half_closed` by the side that has ended its part.
pub data Phase : Type 0 where
  idle_phase reserved_phase open_phase closed_phase : Phase
  half_closed : Side → Phase

pub data FrameKind : Type 0 where
  headers_kind data_kind : FrameKind

-- A frame of one side, and whether it has END_STREAM.
pub data Frame : Type 0 where
  frame : Side → FrameKind → Bool → Frame

-- What the RFC allows of HEADERS and DATA frames.
pub data Step : Phase → Frame → Phase → Type 0 where
  opens : {by : Side} → Step idle_phase (frame by headers_kind false) open_phase
  opens_half : {by : Side} → Step idle_phase (frame by headers_kind true) (half_closed by)
  answers : Step reserved_phase (frame remote headers_kind false) (half_closed local)
  answers_all : Step reserved_phase (frame remote headers_kind true) closed_phase
  goes_on : {by : Side} {k : FrameKind} → Step open_phase (frame by k false) open_phase
  half_closes : {by : Side} {k : FrameKind} → Step open_phase (frame by k true) (half_closed by)
  goes_on_half :
      {by : Side} {k : FrameKind}
      → Step (half_closed (other_side by)) (frame by k false) (half_closed (other_side by))
  closes :
      {by : Side} {k : FrameKind}
      → Step (half_closed (other_side by)) (frame by k true) closed_phase

abbrev pub phase : H2StreamState → Phase
phase idle = idle_phase
phase (opened send recv) = open_phase
phase reserved_remote = reserved_phase
phase (local_half_closed recv) = half_closed local
phase (remote_half_closed send) = half_closed remote
phase (closed reason) = closed_phase

abbrev pub is_closed : H2StreamState → Bool
is_closed (closed reason) = true
is_closed _ = false

-- A change that the RFC allows, and that says of the new state whether it is closed.
abbrev Allows : H2StreamState → Frame → Change → Type 0
Allows a f (becomes b) = Step (phase a) f (phase b) × (is_closed b ≡ false)
Allows a f (ends b) = Step (phase a) f (phase b) × (is_closed b ≡ true)
Allows a f ignored = Unit
Allows a f refused = Unit

send_headers-Allows :
    (a : H2StreamState) (eos : Bool)
    → Allows a (frame local headers_kind eos) (send_headers_change a eos)
unfolding send_headers_change
send_headers-Allows idle true = (opens_half, refl)
send_headers-Allows idle false = (opens, refl)
send_headers-Allows (opened wait_headers recv) true = (half_closes, refl)
send_headers-Allows (opened wait_headers recv) false = (goes_on, refl)
send_headers-Allows (opened wait_data recv) eos = tt
send_headers-Allows (remote_half_closed wait_headers) true = (closes, refl)
send_headers-Allows (remote_half_closed wait_headers) false = (goes_on_half, refl)
send_headers-Allows (remote_half_closed wait_data) eos = tt
send_headers-Allows reserved_remote eos = tt
send_headers-Allows (local_half_closed recv) eos = tt
send_headers-Allows (closed reason) eos = tt

send_data-Allows :
    (a : H2StreamState) (eos : Bool) → Allows a (frame local data_kind eos) (send_data_change a eos)
unfolding send_data_change
send_data-Allows (opened wait_data recv) true = (half_closes, refl)
send_data-Allows (opened wait_data recv) false = (goes_on, refl)
send_data-Allows (opened wait_headers recv) eos = tt
send_data-Allows (remote_half_closed wait_data) true = (closes, refl)
send_data-Allows (remote_half_closed wait_data) false = (goes_on_half, refl)
send_data-Allows (remote_half_closed wait_headers) eos = tt
send_data-Allows idle eos = tt
send_data-Allows reserved_remote eos = tt
send_data-Allows (local_half_closed recv) eos = tt
send_data-Allows (closed reason) eos = tt

recv_headers-Allows :
    (a : H2StreamState) (eos : Bool)
    → Allows a (frame remote headers_kind eos) (recv_headers_change a eos)
unfolding recv_headers_change
recv_headers-Allows idle true = (opens_half, refl)
recv_headers-Allows idle false = (opens, refl)
recv_headers-Allows reserved_remote true = (answers_all, refl)
recv_headers-Allows reserved_remote false = (answers, refl)
recv_headers-Allows (opened send wait_headers) true = (half_closes, refl)
recv_headers-Allows (opened send wait_headers) false = (goes_on, refl)
recv_headers-Allows (opened send wait_data) eos = tt
recv_headers-Allows (local_half_closed wait_headers) true = (closes, refl)
recv_headers-Allows (local_half_closed wait_headers) false = (goes_on_half, refl)
recv_headers-Allows (local_half_closed wait_data) eos = tt
recv_headers-Allows (remote_half_closed send) eos = tt
recv_headers-Allows (closed local_go_away) eos = tt
recv_headers-Allows (closed local_rst) eos = tt
recv_headers-Allows (closed _) eos = tt

recv_data-Allows :
    (a : H2StreamState) (eos : Bool)
    → Allows a (frame remote data_kind eos) (recv_data_change a eos)
unfolding recv_data_change
recv_data-Allows (opened send wait_data) true = (half_closes, refl)
recv_data-Allows (opened send wait_data) false = (goes_on, refl)
recv_data-Allows (opened send wait_headers) eos = tt
recv_data-Allows (local_half_closed wait_data) true = (closes, refl)
recv_data-Allows (local_half_closed wait_data) false = (goes_on_half, refl)
recv_data-Allows (local_half_closed wait_headers) eos = tt
recv_data-Allows (remote_half_closed send) eos = tt
recv_data-Allows idle eos = tt
recv_data-Allows reserved_remote eos = tt
recv_data-Allows (closed local_go_away) eos = tt
recv_data-Allows (closed local_rst) eos = tt
recv_data-Allows (closed _) eos = tt

pub stream_at-set_stream :
    {P : Parameters} (m : List (ℕ × Stream P)) (id : ℕ) (old st : Stream P)
    → stream_at m id ≡ some old
    → stream_at (set_stream m id st) id ≡ some st
unfolding stream_at set_stream
stream_at-set_stream [] id old st h = cc
stream_at-set_stream ((k, x) ∷ m) id old st h = elim (Bool-cases (k == id)) [
  | inl same ↦ rw (same, same)
  | inr ne ↦ let later = rw ne at h in rw (ne, ne) (stream_at-set_stream m id old st later)
]

-- An accepted frame takes its one stream along a step of the RFC, and the stream counts no more if that
-- closes it. Any other frame changes nothing.
abbrev pub Follows : {P : Parameters} → Streams P → ℕ → Frame → FrameRecvState × Streams P → Type 0
Follows {P} s id f (FrameRecvState.ok, s') =
    (st : Stream P) × (state : H2StreamState) × (stream_at s.stream_map id ≡ some st)
    × (stream_at s'.stream_map id ≡ some (record st { state = state }))
    × Step (phase st.state) f (phase state)
    × (s'.current_concurrent_streams ≡ (
        if is_closed state
        then (s.current_concurrent_streams + (2 ^ 32 - 1)) % 2 ^ 32
        else s.current_concurrent_streams))
Follows s id f (FrameRecvState.ignore, s') = s' ≡ s
Follows s id f (FrameRecvState.err e, s') = s' ≡ s

apply_change-Follows :
    {P : Parameters} (s : Streams P) (id : ℕ) (f : Frame) (st : Stream P) (c : Change)
    → stream_at s.stream_map id ≡ some st
    → Allows st.state f c
    → Follows s id f (apply_change s id st c)
apply_change-Follows s id f st (becomes b) h (step, counts) =
    (st, b, h, stream_at-set_stream s.stream_map id st _ h, step, rw counts)
apply_change-Follows s id f st (ends b) h (step, counts) =
    (st, b, h, stream_at-set_stream s.stream_map id st _ h, step, rw counts)
apply_change-Follows s id f st ignored h a = refl
apply_change-Follows s id f st refused h a = refl

on_stream-Follows :
    {P : Parameters} (s : Streams P) (id : ℕ) (f : Frame) (change : H2StreamState → Change)
    → ((a : H2StreamState) → Allows a f (change a))
    → Follows s id f (on_stream s id change)
on_stream-Follows s id f change allows = elim (Option-cases (stream_at s.stream_map id)) [
  | inl absent ↦
      let nothing : on_stream s id change ≡ (FrameRecvState.err protocol_failure, s) =
        rw (on_stream, absent) in
      subst (Follows s id f) (sym nothing) refl
  | inr (st, there) ↦
      let found : on_stream s id change ≡ apply_change s id st (change st.state) =
        rw (on_stream, there) in
      subst (Follows s id f) (sym found)
        (apply_change-Follows s id f st (change st.state) there (allows st.state))
]

received-Follows :
    {P : Parameters} (s : Streams P) (id : ℕ) (f : Frame) (change : H2StreamState → Change)
    → ((a : H2StreamState) → Allows a f (change a))
    → Follows s id f
        (if ltb s.max_recv_id id then (FrameRecvState.ignore, s) else on_stream s id change)
received-Follows s id f change allows = elim (Bool-cases (ltb s.max_recv_id id)) [
  | inl late ↦ rw late refl
  | inr early ↦ rw early (on_stream-Follows s id f change allows)
]

-- The frames sent and received, HEADERS and DATA, with END_STREAM or not: where one is accepted its
-- stream was there and takes a step that RFC 9113 allows for the frame, no other field of the stream
-- changes, and the count of streams goes down by one, modulo 2 ^ 32, just if that closes the stream. Where
-- a frame is ignored or refused, nothing changes.
pub frames-Follow :
    {P : Parameters} (s : Streams P) (id : ℕ) (eos : Bool)
    → Follows s id (frame local headers_kind eos) (send_headers_frame s id eos)
      × Follows s id (frame local data_kind eos) (send_data_frame s id eos)
      × Follows s id (frame remote headers_kind eos) (recv_headers s id eos)
      × Follows s id (frame remote data_kind eos) (recv_data s id eos)
unfolding send_headers_frame send_data_frame recv_headers recv_data
frames-Follow s id eos = (
  on_stream-Follows s id _ (λ st. send_headers_change st eos) (λ a. send_headers-Allows a eos),
  on_stream-Follows s id _ (λ st. send_data_change st eos) (λ a. send_data-Allows a eos),
  received-Follows s id _ (λ st. recv_headers_change st eos) (λ a. recv_headers-Allows a eos),
  received-Follows s id _ (λ st. recv_data_change st eos) (λ a. recv_data-Allows a eos),
)

-- ===== src/Client/Streams.antt =====
-- ylong_http_client/src/util/h2/streams.rs: the states of the streams, the frames that change them, and
-- the queue of streams that wait for others to end. A `u32` count wraps around below 0, as in a build
-- without overflow checks. Frames and the bodies of requests are parameters.
pub mod Lifecycle
pub mod Exchange
pub mod Reset
pub mod Concurrency
use commonlibrary_rust_ylong.Common.{
  ℕ, zero, suc, ◌+◌, ◌-◌, ◌%◌, ◌^◌, Option, none, some, List, [], ◌∷◌, ◌++◌, Bool, true, false, ltb,
  leb, ◌==◌, if◌then◌else◌, length,
}
use commonlibrary_rust_ylong.H2.Error.{H2Error, connection_error, protocol_error}
use commonlibrary_rust_ylong.Client.Window.{SendWindow, RecvWindow}

pub data FrameRecvState : Type 0 where
  ok ignore : FrameRecvState
  err : H2Error → FrameRecvState

pub data StreamEndState : Type 0 where
  ok ignore : StreamEndState
  err : H2Error → StreamEndState

pub data CloseReason : Type 0 where
  local_rst remote_rst remote_go_away local_go_away end_stream : CloseReason

pub data ActiveState : Type 0 where
  wait_headers wait_data : ActiveState

-- `opened` has the state of sending, then that of receiving.
pub data H2StreamState : Type 0 where
  idle : H2StreamState
  opened : ActiveState → ActiveState → H2StreamState
  reserved_remote : H2StreamState
  local_half_closed : ActiveState → H2StreamState
  remote_half_closed : ActiveState → H2StreamState
  closed : CloseReason → H2StreamState

-- The type of frames, and that of bodies with its operation `clear`.
pub record Parameters : Type 1 where
  pub Frame : Type 0
  pub Body : Type 0
  pub clear : Body → Body

pub record Stream (P : Parameters) : Type 0 where
  pub recv_window : RecvWindow
  pub send_window : SendWindow
  pub state : H2StreamState
  pub header : Option P.Frame
  pub data_ref : P.Body

-- The fields that the functions of this file read or change.
pub record Streams (P : Parameters) : Type 0 where
  pub max_recv_id : ℕ
  pub max_concurrent_streams : ℕ
  pub current_concurrent_streams : ℕ
  pub pending_concurrency : List ℕ
  pub pending_send : List ℕ
  pub stream_map : List (ℕ × Stream P)

unfoldable pub stream_at : {P : Parameters} → List (ℕ × Stream P) → ℕ → Option (Stream P)
stream_at [] id = none
stream_at ((k, st) ∷ m) id = if k == id then some st else stream_at m id

pub set_stream : {P : Parameters} → List (ℕ × Stream P) → ℕ → Stream P → List (ℕ × Stream P)
set_stream [] id st = []
set_stream ((k, old) ∷ m) id st = if k == id then (k, st) ∷ m else (k, old) ∷ set_stream m id st

abbrev pub decrease_current_concurrency : {P : Parameters} → Streams P → Streams P
decrease_current_concurrency s = record s {
  current_concurrent_streams = (s.current_concurrent_streams + (2 ^ 32 - 1)) % 2 ^ 32;
}

abbrev pub protocol_failure : H2Error
protocol_failure = connection_error protocol_error

-- What a frame does to one stream: its new state, and whether the stream no longer counts.
pub data Change : Type 0 where
  becomes : H2StreamState → Change
  ends : H2StreamState → Change
  ignored refused : Change

unfoldable pub send_headers_change : H2StreamState → Bool → Change
send_headers_change idle true = becomes (local_half_closed wait_headers)
send_headers_change idle false = becomes (opened wait_data wait_headers)
send_headers_change (opened wait_headers recv) true = becomes (local_half_closed recv)
send_headers_change (opened wait_headers recv) false = becomes (opened wait_data recv)
send_headers_change (remote_half_closed wait_headers) true = ends (closed end_stream)
send_headers_change (remote_half_closed wait_headers) false = becomes (remote_half_closed wait_data)
send_headers_change _ eos = refused

unfoldable pub send_data_change : H2StreamState → Bool → Change
send_data_change (opened wait_data recv) true = becomes (local_half_closed recv)
send_data_change (opened wait_data recv) false = becomes (opened wait_data recv)
send_data_change (remote_half_closed wait_data) true = ends (closed end_stream)
send_data_change (remote_half_closed wait_data) false = becomes (remote_half_closed wait_data)
send_data_change _ eos = refused

-- With the macro `change_stream_state`.
unfoldable pub recv_headers_change : H2StreamState → Bool → Change
recv_headers_change idle true = becomes (remote_half_closed wait_headers)
recv_headers_change idle false = becomes (opened wait_headers wait_data)
recv_headers_change reserved_remote true = ends (closed end_stream)
recv_headers_change reserved_remote false = becomes (local_half_closed wait_data)
recv_headers_change (opened send wait_headers) true = becomes (remote_half_closed send)
recv_headers_change (opened send wait_headers) false = becomes (opened send wait_data)
recv_headers_change (local_half_closed wait_headers) true = ends (closed end_stream)
recv_headers_change (local_half_closed wait_headers) false = becomes (local_half_closed wait_data)
recv_headers_change (closed local_go_away) eos = ignored
recv_headers_change (closed local_rst) eos = ignored
recv_headers_change _ eos = refused

unfoldable pub recv_data_change : H2StreamState → Bool → Change
recv_data_change (opened send wait_data) true = becomes (remote_half_closed send)
recv_data_change (opened send wait_data) false = becomes (opened send wait_data)
recv_data_change (local_half_closed wait_data) true = ends (closed end_stream)
recv_data_change (local_half_closed wait_data) false = becomes (local_half_closed wait_data)
recv_data_change (closed local_go_away) eos = ignored
recv_data_change (closed local_rst) eos = ignored
recv_data_change _ eos = refused

abbrev pub put_state : {P : Parameters} → Streams P → ℕ → Stream P → H2StreamState → Streams P
put_state s id st state = record s {
  stream_map = set_stream s.stream_map id (record st { state = state });
}

abbrev pub apply_change :
    {P : Parameters} → Streams P → ℕ → Stream P → Change → FrameRecvState × Streams P
apply_change s id st (becomes state) = (FrameRecvState.ok, put_state s id st state)
apply_change s id st (ends state) =
    (FrameRecvState.ok, decrease_current_concurrency (put_state s id st state))
apply_change s id st ignored = (FrameRecvState.ignore, s)
apply_change s id st refused = (FrameRecvState.err protocol_failure, s)

abbrev pub on_stream :
    {P : Parameters} → Streams P → ℕ → (H2StreamState → Change) → FrameRecvState × Streams P
on_stream s id change = elim (stream_at s.stream_map id) [
  | none ↦ (FrameRecvState.err protocol_failure, s)
  | some st ↦ apply_change s id st (change st.state)
]

unfoldable pub send_headers_frame :
    {P : Parameters} → Streams P → ℕ → Bool → FrameRecvState × Streams P
send_headers_frame s id eos = on_stream s id (λ st. send_headers_change st eos)

unfoldable pub send_data_frame :
    {P : Parameters} → Streams P → ℕ → Bool → FrameRecvState × Streams P
send_data_frame s id eos = on_stream s id (λ st. send_data_change st eos)

unfoldable pub recv_headers : {P : Parameters} → Streams P → ℕ → Bool → FrameRecvState × Streams P
recv_headers s id eos =
    if ltb s.max_recv_id id
    then (FrameRecvState.ignore, s)
    else on_stream s id (λ st. recv_headers_change st eos)

unfoldable pub recv_data : {P : Parameters} → Streams P → ℕ → Bool → FrameRecvState × Streams P
recv_data s id eos =
    if ltb s.max_recv_id id
    then (FrameRecvState.ignore, s)
    else on_stream s id (λ st. recv_data_change st eos)

-- A reset of a stream that is not closed.
abbrev pub reset :
    {P : Parameters} → Streams P → ℕ → Stream P → CloseReason → StreamEndState × Streams P
reset {P} s id st reason =
    let st' : Stream P = record st {
      state = closed reason;
      header = none;
      data_ref = P.clear st.data_ref;
    } in
    (
      StreamEndState.ok,
      decrease_current_concurrency (record s { stream_map = set_stream s.stream_map id st' }),
    )

abbrev pub local_reset_at :
    {P : Parameters} → Streams P → ℕ → Stream P → H2StreamState → StreamEndState × Streams P
local_reset_at s id st (closed end_stream) =
    (StreamEndState.ignore, put_state s id st (closed local_rst))
local_reset_at s id st (closed _) = (StreamEndState.ignore, s)
local_reset_at s id st _ = reset s id st local_rst

unfoldable pub send_local_reset : {P : Parameters} → Streams P → ℕ → StreamEndState × Streams P
send_local_reset s id = elim (stream_at s.stream_map id) [
  | none ↦ (StreamEndState.err protocol_failure, s)
  | some st ↦ local_reset_at s id st st.state
]

abbrev pub remote_reset_at :
    {P : Parameters} → Streams P → ℕ → Stream P → H2StreamState → StreamEndState × Streams P
remote_reset_at s id st (closed _) = (StreamEndState.ignore, s)
remote_reset_at s id st _ = reset s id st remote_rst

unfoldable pub recv_remote_reset : {P : Parameters} → Streams P → ℕ → StreamEndState × Streams P
recv_remote_reset s id =
    if ltb s.max_recv_id id then (StreamEndState.ignore, s) else elim (stream_at s.stream_map id) [
      | none ↦ (StreamEndState.err protocol_failure, s)
      | some st ↦ remote_reset_at s id st st.state
    ]

-- The loop of `try_consume_pending_concurrency`; each round takes a stream out of the queue.
pub consume_loop : {P : Parameters} → ℕ → List ℕ → Streams P → Streams P
consume_loop zero pending s = record s { pending_concurrency = pending }
consume_loop (suc fuel) [] s = record s { pending_concurrency = [] }
consume_loop (suc fuel) (id ∷ pending) s =
    let next = consume_loop fuel pending (record s {
      current_concurrent_streams = (s.current_concurrent_streams + 1) % 2 ^ 32;
      pending_send = s.pending_send ++ id ∷ [];
    }) in
    if leb s.max_concurrent_streams s.current_concurrent_streams
    then record s { pending_concurrency = id ∷ pending }
    else next

pub try_consume_pending_concurrency : {P : Parameters} → Streams P → Streams P
unfolding consume_loop
try_consume_pending_concurrency s =
    consume_loop (length s.pending_concurrency) s.pending_concurrency s

-- ===== src/Client/Streams/Exchange.antt =====
-- One request with its response, frame by frame.
use mathlib.Core.Path.{subst}
use commonlibrary_rust_ylong.Common.{
  ℕ, ◌+◌, ◌-◌, ◌%◌, ◌^◌, ◌≤◌, ◌≡◌, refl, sym, some, List, [], ◌∷◌, true, false, ltb, arith,
}
use commonlibrary_rust_ylong.Client.Streams.{
  FrameRecvState, H2StreamState, idle, opened, local_half_closed, closed, wait_headers, wait_data,
  end_stream, Parameters, Stream, Streams, stream_at, decrease_current_concurrency, Change,
  put_state, apply_change, on_stream, send_headers_change, send_data_change, recv_headers_change,
  recv_data_change, send_headers_frame, send_data_frame, recv_headers, recv_data,
}
use commonlibrary_rust_ylong.Client.Streams.Lifecycle.{stream_at-set_stream}

abbrev pub in_state : {P : Parameters} → Stream P → H2StreamState → Stream P
in_state st state = record st { state = state }

-- HEADERS and the last DATA of a request, then HEADERS and the last DATA of its response.
abbrev pub exchange : {P : Parameters} → Streams P → ℕ → List FrameRecvState × Streams P
exchange s id =
    let (a, s1) = send_headers_frame s id false in
    let (b, s2) = send_data_frame s1 id true in
    let (c, s3) = recv_headers s2 id false in
    let (d, s4) = recv_data s3 id true in (a ∷ b ∷ c ∷ d ∷ [], s4)

on_stream_found :
    {P : Parameters} (s : Streams P) (id : ℕ) (st : Stream P) (change : H2StreamState → Change)
    → stream_at s.stream_map id ≡ some st
    → on_stream s id change ≡ apply_change s id st (change st.state)
on_stream_found s id st change there = rw (on_stream, there)

put_state-stream_at :
    {P : Parameters} (s : Streams P) (id : ℕ) (st : Stream P) (state : H2StreamState)
    → stream_at s.stream_map id ≡ some st
    → stream_at (put_state s id st state).stream_map id ≡ some (in_state st state)
put_state-stream_at s id st state there = stream_at-set_stream s.stream_map id st _ there

abbrev pub all_ok : List FrameRecvState
all_ok = FrameRecvState.ok ∷ FrameRecvState.ok ∷ FrameRecvState.ok ∷ FrameRecvState.ok ∷ []

exchange_run :
    {P : Parameters} (s s1 s2 s3 s4 : Streams P) (id : ℕ)
    → send_headers_frame s id false ≡ (FrameRecvState.ok, s1)
    → send_data_frame s1 id true ≡ (FrameRecvState.ok, s2)
    → recv_headers s2 id false ≡ (FrameRecvState.ok, s3)
    → recv_data s3 id true ≡ (FrameRecvState.ok, s4)
    → exchange s id ≡ (all_ok, s4)
exchange_run s s1 s2 s3 s4 id e1 e2 e3 e4 = rw (exchange, e1, e2, e3, e4)

-- From an idle stream whose number the client still answers for, all four frames of a request and its
-- response are accepted, and they leave the stream closed at its end, with the count of streams one less,
-- modulo 2 ^ 32.
pub exchange_lem :
    {P : Parameters} (s : Streams P) (id : ℕ) (st : Stream P)
    → stream_at s.stream_map id ≡ some (in_state st idle)
    → id ≤ s.max_recv_id
    → ((exchange s id).0 ≡ all_ok)
      × (stream_at (exchange s id).1.stream_map id ≡ some (in_state st (closed end_stream)))
      × ((exchange s id).1.current_concurrent_streams
          ≡ (s.current_concurrent_streams + (2 ^ 32 - 1)) % 2 ^ 32)
unfolding send_headers_frame send_data_frame recv_headers recv_data send_headers_change
    send_data_change recv_headers_change recv_data_change
exchange_lem {P} s id st there early =
    let answers : ltb s.max_recv_id id ≡ false = ground arith in
    let st0 = in_state st idle in
    let st1 = in_state st (opened wait_data wait_headers) in
    let st2 = in_state st (local_half_closed wait_headers) in
    let st3 = in_state st (local_half_closed wait_data) in
    let s1 : Streams P = put_state s id st0 st1.state in
    let s2 : Streams P = put_state s1 id st1 st2.state in
    let s3 : Streams P = put_state s2 id st2 st3.state in
    let there1 = put_state-stream_at s id st0 st1.state there in
    let there2 = put_state-stream_at s1 id st1 st2.state there1 in
    let there3 = put_state-stream_at s2 id st2 st3.state there2 in
    let e1 : send_headers_frame s id false ≡ (FrameRecvState.ok, s1) =
      on_stream_found s id st0 (λ a. send_headers_change a false) there in
    let e2 : send_data_frame s1 id true ≡ (FrameRecvState.ok, s2) =
      on_stream_found s1 id st1 (λ a. send_data_change a true) there1 in
    let e3 : recv_headers s2 id false ≡ (FrameRecvState.ok, s3) =
      rw (recv_headers, answers)
        (on_stream_found s2 id st2 (λ a. recv_headers_change a false) there2) in
    let e4 : recv_data s3 id true ≡ (
      FrameRecvState.ok,
      decrease_current_concurrency (put_state s3 id st3 (closed end_stream)),
    ) =
      rw (recv_data, answers) (on_stream_found s3 id st3 (λ a. recv_data_change a true) there3) in
    let there4 = put_state-stream_at s3 id st3 (closed end_stream) there3 in
    subst
      (λ r.
        (r.0 ≡ all_ok)
        × (stream_at r.1.stream_map id ≡ some (in_state st (closed end_stream)))
        × (r.1.current_concurrent_streams ≡ (s.current_concurrent_streams + (2 ^ 32 - 1)) % 2 ^ 32))
      (sym (exchange_run s s1 s2 s3 _ id e1 e2 e3 e4)) (refl, there4, refl)

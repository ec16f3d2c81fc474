-- ===== src/Client/Streams/Reset.antt =====
-- What RST_STREAM does, sent and received.
use mathlib.Core.Path.{subst}
use commonlibrary_rust_ylong.Common.{
  ℕ, ◌+◌, ◌-◌, ◌%◌, ◌^◌, ◌≡◌, refl, sym, Option-cases, none, some, inl, inr, Bool-cases, false, ltb,
}
use commonlibrary_rust_ylong.Client.Streams.{
  StreamEndState, H2StreamState, idle, opened, reserved_remote, local_half_closed,
  remote_half_closed, closed, CloseReason, local_rst, remote_rst, end_stream, Parameters, Stream,
  Streams, stream_at, protocol_failure, reset, local_reset_at, send_local_reset, remote_reset_at,
  recv_remote_reset,
}
use commonlibrary_rust_ylong.Client.Streams.Lifecycle.{is_closed, stream_at-set_stream}

-- A reset that is carried out finds an open stream, closes it for the reason, drops its header, clears its
-- body and counts one stream less. One that is ignored leaves the count.
-- One that is refused finds no stream and changes nothing.
abbrev pub Resets :
    {P : Parameters} → Streams P → ℕ → CloseReason → StreamEndState × Streams P → Type 0
Resets {P} s id reason (StreamEndState.ok, s') =
    (st : Stream P) × (stream_at s.stream_map id ≡ some st)
    × (is_closed st.state ≡ false)
    × (stream_at s'.stream_map id
        ≡ some (record st { state = closed reason; header = none; data_ref = P.clear st.data_ref }))
    × (s'.current_concurrent_streams ≡ (s.current_concurrent_streams + (2 ^ 32 - 1)) % 2 ^ 32)
Resets s id reason (StreamEndState.ignore, s') =
    s'.current_concurrent_streams ≡ s.current_concurrent_streams
Resets s id reason (StreamEndState.err e, s') = (stream_at s.stream_map id ≡ none) × (s' ≡ s)

reset-Resets :
    {P : Parameters} (s : Streams P) (id : ℕ) (st : Stream P) (reason : CloseReason)
    → stream_at s.stream_map id ≡ some st
    → is_closed st.state ≡ false
    → Resets s id reason (reset s id st reason)
reset-Resets s id st reason there active =
    (st, there, active, stream_at-set_stream s.stream_map id st _ there, refl)

local-Resets :
    {P : Parameters} (s : Streams P) (id : ℕ) (st : Stream P) (state : H2StreamState)
    → st.state ≡ state
    → stream_at s.stream_map id ≡ some st
    → Resets s id local_rst (local_reset_at s id st state)
local-Resets s id st (closed end_stream) e there = refl
local-Resets s id st (closed local_rst) e there = refl
local-Resets s id st (closed _) e there = refl
local-Resets s id st idle e there = reset-Resets s id st local_rst there (rw e)
local-Resets s id st reserved_remote e there = reset-Resets s id st local_rst there (rw e)
local-Resets s id st (opened a b) e there = reset-Resets s id st local_rst there (rw e)
local-Resets s id st (local_half_closed a) e there = reset-Resets s id st local_rst there (rw e)
local-Resets s id st (remote_half_closed a) e there = reset-Resets s id st local_rst there (rw e)

remote-Resets :
    {P : Parameters} (s : Streams P) (id : ℕ) (st : Stream P) (state : H2StreamState)
    → st.state ≡ state
    → stream_at s.stream_map id ≡ some st
    → Resets s id remote_rst (remote_reset_at s id st state)
remote-Resets s id st (closed reason) e there = refl
remote-Resets s id st idle e there = reset-Resets s id st remote_rst there (rw e)
remote-Resets s id st reserved_remote e there = reset-Resets s id st remote_rst there (rw e)
remote-Resets s id st (opened a b) e there = reset-Resets s id st remote_rst there (rw e)
remote-Resets s id st (local_half_closed a) e there = reset-Resets s id st remote_rst there (rw e)
remote-Resets s id st (remote_half_closed a) e there = reset-Resets s id st remote_rst there (rw e)

send-Resets :
    {P : Parameters} (s : Streams P) (id : ℕ) → Resets s id local_rst (send_local_reset s id)
unfolding send_local_reset
send-Resets s id = elim (Option-cases (stream_at s.stream_map id)) [
  | inl absent ↦
      let nothing : send_local_reset s id ≡ (StreamEndState.err protocol_failure, s) =
        rw (send_local_reset, absent) in
      subst (Resets s id local_rst) (sym nothing) (absent, refl)
  | inr (st, there) ↦
      let found : send_local_reset s id ≡ local_reset_at s id st st.state =
        rw (send_local_reset, there) in
      subst (Resets s id local_rst) (sym found) (local-Resets s id st st.state refl there)
]

recv-Resets :
    {P : Parameters} (s : Streams P) (id : ℕ) → Resets s id remote_rst (recv_remote_reset s id)
unfolding recv_remote_reset
recv-Resets s id = elim (Bool-cases (ltb s.max_recv_id id)) [
  | inl late ↦
      let nothing : recv_remote_reset s id ≡ (StreamEndState.ignore, s) =
        rw (recv_remote_reset, late) in
      subst (Resets s id remote_rst) (sym nothing) refl
  | inr early ↦ elim (Option-cases (stream_at s.stream_map id)) [
    | inl absent ↦
        let nothing : recv_remote_reset s id ≡ (StreamEndState.err protocol_failure, s) =
          rw (recv_remote_reset, early, absent) in
        subst (Resets s id remote_rst) (sym nothing) (absent, refl)
    | inr (st, there) ↦
        let found : recv_remote_reset s id ≡ remote_reset_at s id st st.state =
          rw (recv_remote_reset, early, there) in
        subst (Resets s id remote_rst) (sym found) (remote-Resets s id st st.state refl there)
  ]
]

-- A reset, sent or received: where it is carried out its stream was there and not closed, and is now closed
-- for the reason, without header and with a cleared body, and the count is one less, modulo 2 ^ 32. Where
-- it is ignored the count stays. Where it is refused there is no such stream, and nothing changes.
pub reset_lem :
    {P : Parameters} (s : Streams P) (id : ℕ)
    → Resets s id local_rst (send_local_reset s id)
      × Resets s id remote_rst (recv_remote_reset s id)
reset_lem s id = (send-Resets s id, recv-Resets s id)

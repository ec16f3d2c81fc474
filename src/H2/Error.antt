-- ===== src/H2/Error.antt =====
-- ylong_http/src/h2/error.rs: the error codes, their numbers, and the two kinds of error.
use commonlibrary_rust_ylong.Common.{ℕ, ◌≡◌, ◌↔◌, refl, arith, ◌==◌, if◌then◌else◌}
use commonlibrary_rust_ylong.Common.Result.{Result, ok, err}

pub data ErrorCode : Type 0 where
  no_error protocol_error interval_error flow_control_error settings_timeout : ErrorCode
  stream_closed frame_size_error refused_stream cancel compression_error : ErrorCode
  connect_error enhance_your_calm inadequate_security http1_1_required : ErrorCode

pub data H2Error : Type 0 where
  stream_error : ℕ → ErrorCode → H2Error
  connection_error : ErrorCode → H2Error

pub into_code : ErrorCode → ℕ
into_code no_error = 0x00
into_code protocol_error = 0x01
into_code interval_error = 0x02
into_code flow_control_error = 0x03
into_code settings_timeout = 0x04
into_code stream_closed = 0x05
into_code frame_size_error = 0x06
into_code refused_stream = 0x07
into_code cancel = 0x08
into_code compression_error = 0x09
into_code connect_error = 0x0a
into_code enhance_your_calm = 0x0b
into_code inadequate_security = 0x0c
into_code http1_1_required = 0x0d

pub try_from : ℕ → Result ErrorCode H2Error
try_from v =
    if v == 0x00
    then ok no_error
    else if v == 0x01
    then ok protocol_error
    else if v == 0x02
    then ok interval_error
    else if v == 0x03
    then ok flow_control_error
    else if v == 0x04
    then ok settings_timeout
    else if v == 0x05
    then ok stream_closed
    else if v == 0x06
    then ok frame_size_error
    else if v == 0x07
    then ok refused_stream
    else if v == 0x08
    then ok cancel
    else if v == 0x09
    then ok compression_error
    else if v == 0x0a
    then ok connect_error
    else if v == 0x0b
    then ok enhance_your_calm
    else if v == 0x0c
    then ok inadequate_security
    else if v == 0x0d
    then ok http1_1_required
    else err (connection_error protocol_error)

-- A number is read as a code just when it is the number of that code.
pub try_from-into_code : (v : ℕ) (c : ErrorCode) → (try_from v ≡ ok c) ↔ (into_code c ≡ v)
unfolding try_from into_code
try_from-into_code v c = (λ h. ground arith, λ h. rw (← h) (forth c))
  where
    forth : (c : ErrorCode) → try_from (into_code c) ≡ ok c
    forth no_error = refl
    forth _ = refl

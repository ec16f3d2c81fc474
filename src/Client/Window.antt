-- ===== src/Client/Window.antt =====
-- ylong_http_client/src/util/h2/buffer/window.rs: flow control windows. An `i32` is an integer, and the
-- unchecked sums and differences wrap around, as in a build without overflow checks.
pub mod Update
use commonlibrary_rust_ylong.Common.{
  ℕ, ◌*◌, ◌-◌, ◌^◌, Option, none, some, Bool, not, ltb, if◌then◌else◌,
}
use commonlibrary_rust_ylong.Common.Int.{
  ℤ, pos, negsuc, pos_part, neg_part, ◌+ℤ◌, ◌-ℤ◌, leb_ℤ, as_i32, wrap_i32, as_u32,
}
use commonlibrary_rust_ylong.Common.Result.{Result, ok, err}
use commonlibrary_rust_ylong.H2.Error.{H2Error, connection_error, flow_control_error}

pub record SendWindow : Type 0 where
  pub size : ℤ

unfoldable pub size_available : SendWindow → ℕ
unfolding as_u32
size_available w = if leb_ℤ w.size (negsuc 0) then 0 else as_u32 w.size

unfoldable pub reduce_size : SendWindow → ℕ → SendWindow
reduce_size w size = record { size = wrap_i32 (w.size -ℤ as_i32 size) }

-- `MAX_FLOW_CONTROL_WINDOW` of util/h2/mod.rs.
abbrev max_flow_control_window : ℤ
max_flow_control_window = pos (2 ^ 31 - 1)

-- `overflowing_add` gives the wrapped sum, and whether the sum is outside of the `i32`s.
unfoldable pub increase_size : SendWindow → ℕ → Result SendWindow H2Error
increase_size w size =
    let sum = w.size +ℤ as_i32 size in
    let curr = wrap_i32 sum in
    if not (leb_ℤ sum (pos (2 ^ 31 - 1)))
    then err (connection_error flow_control_error)
    else if not (leb_ℤ (negsuc (2 ^ 31 - 1)) sum)
    then err (connection_error flow_control_error)
    else if not (leb_ℤ curr max_flow_control_window)
    then err (connection_error flow_control_error)
    else ok (record { size = curr })

unfoldable pub send_data : SendWindow → ℕ → SendWindow
send_data w size = record { size = wrap_i32 (w.size -ℤ as_i32 size) }

pub record RecvWindow : Type 0 where
  pub notification : ℤ
  pub actual : ℤ

unfoldable pub unreleased_size : RecvWindow → Option ℕ
unreleased_size w =
    let unreleased = wrap_i32 (w.actual -ℤ w.notification) in
    let doubled = wrap_i32 (unreleased +ℤ unreleased) in
    if leb_ℤ unreleased (pos 0)
    then none
    else if not (leb_ℤ doubled w.notification)
    then some (as_u32 unreleased)
    else none

unfoldable pub notification_available : RecvWindow → ℕ
notification_available w = if leb_ℤ w.notification (negsuc 0) then 0 else as_u32 w.notification

unfoldable pub increase_notification : RecvWindow → ℕ → RecvWindow
increase_notification w size = record w { notification = wrap_i32 (w.notification +ℤ as_i32 size) }

unfoldable pub reduce_notification : RecvWindow → ℕ → RecvWindow
reduce_notification w size = record w { notification = wrap_i32 (w.notification -ℤ as_i32 size) }

unfoldable pub increase_actual : RecvWindow → ℕ → RecvWindow
increase_actual w size = record w { actual = wrap_i32 (w.actual +ℤ as_i32 size) }

unfoldable pub reduce_actual : RecvWindow → ℕ → RecvWindow
reduce_actual w size = record w { actual = wrap_i32 (w.actual -ℤ as_i32 size) }

-- The increment of the WINDOW_UPDATE frame to send, and the window afterwards.
unfoldable pub check_window_update : RecvWindow → Option ℕ × RecvWindow
unfolding unreleased_size increase_notification
check_window_update w = elim (unreleased_size w) [
  | some size ↦ (some size, increase_notification w size)
  | none ↦ (none, w)
]

unfoldable pub recv_data : RecvWindow → ℕ → RecvWindow
recv_data w size = record w { notification = wrap_i32 (w.notification -ℤ as_i32 size) }

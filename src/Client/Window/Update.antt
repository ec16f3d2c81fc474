-- ===== src/Client/Window/Update.antt =====
-- When a receiver of data gives the sender its window back.
use commonlibrary_rust_ylong.Common.{
  ℕ, ◌+◌, ◌*◌, ◌-◌, ◌^◌, ◌≤◌, ◌<◌, ◌≡◌, ap, ◌∙◌, none, some, ltb, inl, inr, Bool-cases,
  if◌then◌else◌, arith,
}
use commonlibrary_rust_ylong.Common.Int.{pos, ◌+ℤ◌, ◌-ℤ◌, as_i32, as_i32_small, wrap_i32, as_u32}
use commonlibrary_rust_ylong.Client.Window.{
  RecvWindow, unreleased_size, increase_notification, check_window_update, recv_data,
}

abbrev pub window : ℕ → ℕ → RecvWindow
window notification actual = record { notification = pos notification; actual = pos actual }

difference : (x y : ℕ) → y ≤ x → x < 2 ^ 31 → wrap_i32 (pos x -ℤ pos y) ≡ pos (x - y)
unfolding wrap_i32 ◌-ℤ◌ as_i32
difference x y h b = ground arith

sum : (x y : ℕ) → x + y < 2 ^ 31 → wrap_i32 (pos x +ℤ pos y) ≡ pos (x + y)
unfolding wrap_i32 ◌+ℤ◌ as_i32
sum x y b = ground arith

received :
    (n a size : ℕ) → n < 2 ^ 31 → size ≤ n → recv_data (window n a) size ≡ window (n - size) a
unfolding recv_data
received n a size b s = rw (as_i32_small size (omega arith), difference n size s b)

unreleased :
    (n a : ℕ)
    → n ≤ a
    → a < 2 ^ 30
    → unreleased_size (window n a) ≡ (if ltb n (2 * (a - n)) then some (a - n) else none)
unfolding unreleased_size as_u32
unreleased n a h b =
    rw (difference a n h (omega arith), sum (a - n) (a - n) (omega arith)) (ground arith)

restored : (n a : ℕ) → n ≤ a → a < 2 ^ 30 → increase_notification (window n a) (a - n) ≡ window a a
unfolding increase_notification
restored n a h b =
    let whole : n + (a - n) ≡ a = omega arith in
    rw (as_i32_small (a - n) (omega arith), sum n (a - n) (omega arith), whole)

updated :
    (n a : ℕ)
    → n ≤ a
    → a < 2 ^ 30
    → check_window_update (window n a)
      ≡ (if ltb n (2 * (a - n)) then (some (a - n), window a a) else (none, window n a))
unfolding check_window_update
updated n a h b =
    rw (check_window_update, unreleased n a h b)
      (elim (Bool-cases (ltb n (2 * (a - n)))) [
        | inl due ↦ rw (due, restored n a h b)
        | inr early ↦ rw early
      ])

-- In a window of less than 2 ^ 30 bytes, of which the sender sees `n`, receiving `size` of these leaves
-- it with `n - size`. If then more than a third of the window is missing, the update gives back all that
-- is missing and restores the whole window; otherwise there is no update, and nothing else changes.
pub check_window_update-recv_data :
    (n a size : ℕ)
    → n ≤ a
    → a < 2 ^ 30
    → size ≤ n
    → check_window_update (recv_data (window n a) size) ≡ (
        if ltb (n - size) (2 * (a - (n - size)))
        then (some (a - (n - size)), window a a)
        else (none, window (n - size) a))
check_window_update-recv_data n a size h b s =
    ap check_window_update (received n a size (omega arith) s)
    ∙ updated (n - size) a (omega arith) b

-- A window of which the sender sees nothing, with at least 2 ^ 30 and less than 2 ^ 31 bytes, is never
-- given back: the doubled size wraps around below 0.
pub check_window_update_starves :
    (a : ℕ) → 2 ^ 30 ≤ a → a < 2 ^ 31 → check_window_update (window 0 a) ≡ (none, window 0 a)
unfolding check_window_update unreleased_size wrap_i32 as_i32 ◌+ℤ◌ ◌-ℤ◌
check_window_update_starves a h b = ground arith

-- ===== src/Poll/Schedule.antt =====
-- internal/storage/poll_schedule.go: how long a feed waits for its next poll. Durations are Go's
-- `time.Duration`, nanoseconds in an `int64` whose overflow is written out by `wrap64`.
pub mod Backoff
pub mod Adaptive
use rssam.Common.{ℕ, zero, suc, ◌*◌, ◌^◌, ◌-◌, ◌&&◌, if◌then◌else◌}
use rssam.Common.Int.{ℤ, pos, pos_part, ◌+ℤ◌, ◌*ℤ◌, ltb_ℤ, leb_ℤ, wrap64, div_ℤ}

abbrev pub Duration : Type 0
Duration = ℤ

-- `time.Time`, as nanoseconds since Go's zero time; so `t.IsZero()` is `eq_ℤ t (pos 0)`.
abbrev pub Time : Type 0
Time = ℤ

abbrev pub second : ℕ
second = 1000000000

abbrev pub minute : ℕ
minute = 60 * second

abbrev pub hour : ℕ
hour = 60 * minute

abbrev pub adaptive_poll_window : ℕ
adaptive_poll_window = 7 * 24 * hour

unfoldable pub clamp_poll_duration : Duration → Duration → Duration → Duration
clamp_poll_duration d lo hi =
    if ltb_ℤ (pos 0) lo && ltb_ℤ d lo then lo else if ltb_ℤ (pos 0) hi && ltb_ℤ hi d then hi else d

-- `time.Duration(intervalMinutes) * time.Minute`, clamped.
unfoldable pub feed_base_poll_interval : ℤ → Duration → Duration → Duration
feed_base_poll_interval interval_minutes lo hi =
    clamp_poll_duration (wrap64 (interval_minutes *ℤ pos minute)) lo hi

-- `intervalMinutes` minutes from `from`, within the bounds.
unfoldable pub feed_next_check_at : Time → ℤ → Duration → Duration → Time
feed_next_check_at from interval_minutes lo hi =
    from +ℤ feed_base_poll_interval interval_minutes lo hi

-- `errorCount` after the correction of a count that is not positive, and then at most 30.
abbrev pub backoff_shift : ℤ → ℕ
backoff_shift error_count =
    let count = if leb_ℤ error_count (pos 0) then pos 1 else error_count in
    pos_part (if ltb_ℤ (pos 30) count then pos 30 else count)

-- `time.Duration(int64(base) * mult)`: the product wraps.
unfoldable pub feed_error_poll_delay : ℤ → ℤ → Duration → Duration → Duration
feed_error_poll_delay interval_minutes error_count lo hi =
    let base = feed_base_poll_interval interval_minutes lo hi in
    let delay = wrap64 (base *ℤ pos (2 ^ backoff_shift error_count)) in
    clamp_poll_duration delay lo hi

unfoldable pub feed_next_check_after_error : Time → ℤ → ℤ → Duration → Duration → Time
feed_next_check_after_error from interval_minutes error_count lo hi =
    from +ℤ feed_error_poll_delay interval_minutes error_count lo hi

-- The loop `for weeks := …; weeks > 1 && d < hardMax; weeks--`, on the rounds that are left.
unfoldable pub double_while_below : ℕ → Duration → Duration → Duration
double_while_below zero d hard_max = d
double_while_below (suc rounds) d hard_max =
    let doubled = double_while_below rounds (wrap64 (d *ℤ pos 2)) hard_max in
    if ltb_ℤ d hard_max then doubled else d

-- The rounds of that loop: one less than the whole weeks of silence.
abbrev pub silent_rounds : Duration → ℕ
silent_rounds silent_for = pos_part (div_ℤ silent_for adaptive_poll_window) - 1

unfoldable pub adaptive_poll_interval : Duration → ℤ → Duration → Duration → Duration → Duration
adaptive_poll_interval base weekly_items silent_for hi hard_max =
    if leb_ℤ hi base
    then base
    else if ltb_ℤ (pos 0) weekly_items
    then clamp_poll_duration (div_ℤ (div_ℤ (pos adaptive_poll_window) (pos_part weekly_items)) 2)
        base hi
    else let hard = if ltb_ℤ hard_max hi then hi else hard_max in
      clamp_poll_duration (double_while_below (silent_rounds silent_for) hi hard) base hard

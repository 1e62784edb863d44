-- ===== src/Poll/Tests.antt =====
-- Runs of the polling schedule on concrete feeds, and the theorems applied to them.
use rssam.Common.{◌+◌, ◌*◌, ◌≡◌, refl, true, false, none, some, arith}
use rssam.Common.Int.{pos, ◌+ℤ◌, ◌-ℤ◌, ◌*ℤ◌, ◌≤ℤ◌, wrap64, div_ℤ}
use rssam.Common.Text.{codes, split, trim_space}
use rssam.Poll.Schedule.{
  Time, minute, hour, clamp_poll_duration, feed_base_poll_interval, feed_next_check_at,
  feed_error_poll_delay, feed_next_check_after_error, double_while_below, adaptive_poll_interval,
}
use rssam.Poll.Schedule.Backoff.{feed_error_poll_delay-overflow}
use rssam.Poll.Window.{
  PollWindow, window, unrestricted, invalid_poll_hours, parse_minute_of_day, parse_poll_hours,
  print_minute, print_window, normalize_poll_hours, day, Zone, contains, next_open, minute_of_day,
  scan_digits, scan_int, scan_unsigned, skip_blanks,
}
use rssam.Poll.Window.Opening.{IsValid}
use rssam.Poll.Window.Parsing.{parse-print_window}
use rssam.Poll.NextCheck.{
  Settings, Timing, Activity, poll_max, poll_min, adaptive_next_check, next_check_after_poll,
  silent_next_check,
}
use rssam.Poll.NextCheck.Bounds.{next_check_after_poll_bounds}

schedule : Unit {0}
unfolding feed_next_check_after_error feed_error_poll_delay feed_next_check_at
    feed_base_poll_interval clamp_poll_duration adaptive_poll_interval double_while_below
    next_check_after_poll adaptive_next_check silent_next_check wrap64 div_ℤ ◌+ℤ◌ ◌-ℤ◌ ◌*ℤ◌
schedule = tt

windows : Unit {0}
unfolding parse_poll_hours parse_minute_of_day print_window print_minute normalize_poll_hours
    contains next_open minute_of_day split trim_space scan_digits scan_int scan_unsigned skip_blanks
    ◌+ℤ◌ ◌-ℤ◌
windows = tt

-- A feed polled every hour, with bounds of a minute and a day: 2, 8 and at most 24 hours.
error_delays :
    (feed_error_poll_delay (pos 60) (pos 0) (pos minute) (pos (24 * hour)) ≡ pos (2 * hour))
    × (feed_error_poll_delay (pos 60) (pos 3) (pos minute) (pos (24 * hour)) ≡ pos (8 * hour))
    × (feed_error_poll_delay (pos 60) (pos 9) (pos minute) (pos (24 * hour)) ≡ pos (24 * hour))
unfolding schedule
error_delays = (refl, refl, refl)

-- A feed polled once a day: after 17 errors the delay is a minute.
overflowing_delay :
    feed_error_poll_delay (pos 1440) (pos 17) (pos minute) (pos (24 * hour)) ≡ pos minute
unfolding schedule
overflowing_delay = refl

daily_base : feed_base_poll_interval (pos 1440) (pos minute) (pos (24 * hour)) ≡ pos (24 * hour)
unfolding schedule
daily_base = refl

feed_error_poll_delay-overflow_example :
    feed_error_poll_delay (pos 1440) (pos 17) (pos minute) (pos (24 * hour)) ≡ pos minute
feed_error_poll_delay-overflow_example =
    feed_error_poll_delay-overflow (pos 1440) (pos 17) minute (24 * hour) (24 * hour) daily_base
      (omega arith) (omega arith)

-- From 22:00 to 6:30.
abbrev night : PollWindow
night = record { start = 1320; end = 390 }

night-IsValid : IsValid night
night-IsValid = record { start_in_day = omega arith; end_in_day = omega arith }

-- A zone without changes, two hours east of UTC.
abbrev east : Zone
east = record { offset = λ t. pos (2 * hour); date = λ d n. pos (d * day + n) -ℤ pos (2 * hour) }

-- Noon of the first day.
abbrev noon : Time
noon = pos (10 * hour)

parse_tests :
    (parse_poll_hours (codes " 22:00-6:30 ") ≡ window night)
    × (parse_poll_hours (codes "  ") ≡ unrestricted)
    × (parse_poll_hours (codes "22:00-24:00") ≡ invalid_poll_hours)
    × (parse_poll_hours (codes "9:00-9:00") ≡ invalid_poll_hours)
    × (parse_poll_hours (codes "9:5junk-+20:00") ≡ window (record { start = 545; end = 1200 }))
    × (print_window night ≡ codes "22:00-06:30")
unfolding windows
parse_tests = (refl, refl, refl, refl, refl, refl)

open_tests :
    (contains east night noon ≡ false)
    × (next_open east night noon ≡ pos (20 * hour))
    × (contains east night (pos (3 * hour)) ≡ true)
unfolding windows
open_tests = (refl, refl, refl)

parse-print_window_example : parse_poll_hours (print_window night) ≡ window night
parse-print_window_example = parse-print_window night night-IsValid (λ e. omega arith)

normalized_hours : normalize_poll_hours (codes "22:00-6:30") ≡ some (codes "22:00-06:30")
unfolding windows
normalized_hours = refl

abbrev settings : Settings
settings = record {
  min_poll_interval = pos (5 * minute);
  max_poll_interval = pos day;
  adaptive_max_interval = pos (12 * hour);
  silent_after = pos (30 * day);
  silent_interval = pos (2 * day);
}

abbrev feed : Timing
feed = record {
  interval_minutes = pos 60;
  adaptive_interval = true;
  created_at = pos day;
  last_entry_at = some (pos (2 * day));
}

-- One item in the week.
abbrev activity : Activity
activity = some (λ since. some (pos 1))

-- The adaptive interval stretches an hour to 12 hours; the silence of 98 days postpones to a day.
next_check_tests :
    (next_check_after_poll settings activity feed (pos (9 * day)) (pos 0)
      ≡ pos (9 * day + 12 * hour))
    × (next_check_after_poll settings none feed (pos (9 * day)) (pos (9 * day + 2 * hour))
        ≡ pos (9 * day + 2 * hour))
    × (silent_next_check settings feed (pos (100 * day)) (pos (100 * day))
        ≡ (pos (101 * day), true))
unfolding schedule
next_check_tests = (refl, refl, refl)

next_check_after_poll_bounds_example :
    (feed_next_check_at (pos (9 * day)) (pos 60) (poll_min settings) (poll_max settings)
      ≤ℤ next_check_after_poll settings activity feed (pos (9 * day)) (pos 0))
    × (next_check_after_poll settings activity feed (pos (9 * day)) (pos 0)
        ≤ℤ pos (9 * day) +ℤ poll_max settings)
next_check_after_poll_bounds_example =
    next_check_after_poll_bounds settings activity feed (pos (9 * day)) (pos 0) (omega arith)
      (omega arith)

-- ===== src/Poll/Refresh/Tests.antt =====
-- Polls of a feed in a category with a window, and the theorems applied to them.
use rssam.Common.{
  ℕ, ltb, ◌-◌, ◌+◌, ◌*◌, ◌≡◌, refl, true, false, none, some, [], ◌∷◌, All, arith, if◌then◌else◌,
}
use rssam.Common.Int.{pos, ltb_ℤ, ◌+ℤ◌, ◌-ℤ◌, ◌*ℤ◌, wrap64, div_ℤ}
use rssam.Poll.Schedule.{
  Time, minute, hour, clamp_poll_duration, feed_base_poll_interval, feed_next_check_at,
  feed_error_poll_delay, feed_next_check_after_error, adaptive_poll_interval, double_while_below,
}
use rssam.Poll.Window.{PollWindow, Zone, contains, next_open, minute_of_day, day}
use rssam.Poll.Window.Opening.{IsValid, HasOpening}
use rssam.Poll.NextCheck.{Settings, adaptive_next_check, next_check_after_poll, silent_next_check}
use rssam.Poll.Refresh.{
  Feed, feed_polling_blocked, Fetch, fetch_failed, fetched, retry_at, World, ask_source,
  store_entries, after_store, record_poll, publish, circuit_open, outside_poll_window, deferred,
  polled, circuit_threshold, failure_of, scheduled, finish_poll, after_fetch, refresh_loaded,
}
use rssam.Poll.Refresh.Laws.{IsPlanned, refresh_loaded-IsPlanned}

refresh : Unit {0}
unfolding refresh_loaded after_fetch finish_poll scheduled failure_of circuit_threshold
    feed_polling_blocked feed_next_check_after_error feed_error_poll_delay feed_next_check_at
    feed_base_poll_interval clamp_poll_duration adaptive_poll_interval double_while_below
    next_check_after_poll adaptive_next_check silent_next_check contains next_open minute_of_day
    wrap64 div_ℤ ◌+ℤ◌ ◌-ℤ◌ ◌*ℤ◌
refresh = tt

abbrev settings : Settings
settings = record {
  min_poll_interval = pos (5 * minute);
  max_poll_interval = pos day;
  adaptive_max_interval = pos 0;
  silent_after = pos 0;
  silent_interval = pos 0;
}

abbrev feed : Feed
feed = record {
  id = 4;
  inbound = false;
  manual_paused = false;
  poll_paused = false;
  parsing_error_count = pos 9;
  timing = record {
    interval_minutes = pos 60;
    adaptive_interval = false;
    created_at = pos day;
    last_entry_at = none;
  };
}

-- On the tenth day at 2:00 the clock is put forward to 3:00; as `time.Date` has it, an hour that is
-- skipped is read by the offset before the change.
abbrev change : ℕ
change = 10 * day + 2 * hour

abbrev local_instant : ℕ → ℕ
local_instant n = if ltb n (change + hour) then n else n - hour

abbrev spring : Zone
spring = record {
  offset = λ t. if ltb_ℤ t (pos change) then pos 0 else pos hour;
  date = λ d n. pos (local_instant (d * day + n));
}

-- From 22:00 to 6:30.
abbrev night : PollWindow
night = record { start = 1320; end = 390 }

night-IsValid : IsValid night
night-IsValid = record { start_in_day = omega arith; end_in_day = omega arith }

-- On the tenth day at 6:00 of the local clock, half an hour before the window closes.
abbrev world : Fetch → World
world answer = record {
  now = pos (10 * day + 5 * hour);
  window = some night;
  slot = true;
  fetch = answer;
  stored = some (2, true);
}

abbrev answered : Fetch
answered = fetched false (pos 0)

abbrev evening : Time
evening = pos (10 * day + 21 * hour)

-- Two new entries; an hour later the window is closed, so the next check waits for 22:00.
polls :
    (refresh_loaded spring settings (pos 10) none (world answered) feed false ≡ (
      ask_source
          ∷ store_entries evening true
          ∷ after_store
          ∷ record_poll true
          ∷ publish evening
          ∷ [],
      polled 2,
    ))
    × (refresh_loaded spring settings (pos 10) none (world (retry_at evening)) feed false
        ≡ (ask_source ∷ [], deferred evening))
    × (refresh_loaded spring settings
          (pos 10)
          none
          (record (world answered) { now = pos (10 * day + 7 * hour) })
          feed
          false
        ≡ ([], outside_poll_window evening))
    × (refresh_loaded spring settings
          (pos 10)
          none
          (world answered)
          (record feed { poll_paused = true })
          false
        ≡ ([], circuit_open))
unfolding refresh
polls = (refl, refl, refl, refl)

-- The tenth error pauses the feed; the delay is the maximal interval.
failures :
    failure_of spring settings (pos 0) none (world (fetch_failed false false)) feed false
    ≡ (pos 10, true, pos (11 * day + 5 * hour))
unfolding refresh
failures = refl

-- Every local day has the minute 22:00, also that of the change.
spring-HasOpening : HasOpening spring night
unfolding ◌+ℤ◌
spring-HasOpening d = ground arith

refresh_loaded-IsPlanned_example :
    All
      (IsPlanned spring settings (pos 10) none (world answered) feed)
      (refresh_loaded spring settings (pos 10) none (world answered) feed false).0
refresh_loaded-IsPlanned_example =
    refresh_loaded-IsPlanned spring settings (pos 10) none (world answered) feed
      (night-IsValid, spring-HasOpening) false false (pos 0) refl

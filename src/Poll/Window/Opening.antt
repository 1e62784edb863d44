-- ===== src/Poll/Window/Opening.antt =====
-- When a poll window opens.
use rssam.Common.{ℕ, ◌+◌, ◌*◌, ◌/◌, ◌%◌, ◌<◌, ◌≡◌, true, inl, inr, arith, Bool-cases}
use rssam.Common.Int.{ltb_ℤ}
use rssam.Poll.Schedule.{Time, minute}
use rssam.Poll.Window.{
  PollWindow, Zone, day, local, in_window, minute_of_day, contains, opening, next_day, next_open,
}

-- The numbers of a parsed window are minutes of the day.
pub record IsValid (w : PollWindow) : Type 0 where
  pub start_in_day : w.start < 1440
  pub end_in_day : w.end < 1440

-- Every local day has the minute at which the window opens: none of its changes of the offset skips
-- that minute. `time.Date` then returns an instant at which the local clock shows what was asked.
abbrev pub HasOpening : Zone → PollWindow → Type 0
HasOpening zone w =
    (d : ℕ) → local zone (zone.date d (w.start * minute)) ≡ d * day + w.start * minute

in_window-opening :
    (w : PollWindow) (d : ℕ)
    → w.start < 1440
    → in_window w ((d * day + w.start * minute) / minute % 1440) ≡ true
in_window-opening w d h = ground arith

module _ (zone : Zone) (w : PollWindow) (t : Time) (v : IsValid w) (hz : HasOpening zone w) where
  contains-opening : (d : ℕ) → contains zone w (zone.date d (w.start * minute)) ≡ true
  unfolding contains minute_of_day
  contains-opening d = rw (hz d) (in_window-opening w d v.start_in_day)

  -- The opening of the day after another opening.
  clock_of_opening : local zone (opening zone w t) % day ≡ w.start * minute
  clock_of_opening = rw (hz (local zone t / day)) (omega (arith, v.start_in_day))

  contains-next_day : contains zone w (next_day zone (opening zone w t)) ≡ true
  contains-next_day = rw (next_day, clock_of_opening) (contains-opening _)

  -- The moment that `NextOpen` returns is in the window.
  pub contains-next_open : contains zone w (next_open zone w t) ≡ true
  unfolding next_open
  contains-next_open = elim (Bool-cases (contains zone w t)) [
    | inl inside ↦ rw inside inside
    | inr shut ↦ elim (Bool-cases (ltb_ℤ t (opening zone w t))) [
      | inl ahead ↦ rw (shut, ahead) (contains-opening _)
      | inr passed ↦ rw (shut, passed) contains-next_day
    ]
  ]

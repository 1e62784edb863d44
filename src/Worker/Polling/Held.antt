-- ===== src/Worker/Polling/Held.antt =====
-- After a poll the feed is not due at once.
use rssam.Common.{
  ◌*◌, ◌≡◌, refl, Bool, true, false, ◌||◌, Option, none, some, [], ◌∷◌, All, arith, Bool-cases, inl,
  inr,
}
use rssam.Common.Int.{ℤ, pos, ◌+ℤ◌, ◌-ℤ◌, leb_ℤ, ◌≤ℤ◌, ◌<ℤ◌, int_laws, +ℤ_parts, -ℤ_parts}
use rssam.Poll.Schedule.{
  Duration, Time, feed_next_check_after_error, feed_error_poll_delay, clamp_poll_duration,
}
use rssam.Poll.Schedule.Backoff.{clamp_bounds}
use rssam.Poll.Refresh.{Feed, feed_polling_blocked}
use rssam.Worker.Pauses.{before}
use rssam.Worker.Polling.{
  millisecond, memory_defer_max, FailedFeed, PollResult, succeeded, retry_later, poll_failed,
  other_error, defer_none, defer_feed, defer_bridge, Polled, not_at_once, deferred_to, is_planned,
  after_failure, after_poll, process_poll_feed,
}

-- A deferral is to a moment to come, that of a feed to one within a minute; a written time is to come.
abbrev pub IsHeld : Time → Polled → Type 0
IsHeld now (defer_none, written) = All (λ t. now <ℤ t) written
IsHeld now (defer_feed until, written) =
    (now +ℤ pos (50 * millisecond) ≤ℤ until) × (until ≤ℤ now +ℤ memory_defer_max) × (written ≡ [])
IsHeld now (defer_bridge until, written) = (now +ℤ pos (50 * millisecond) ≤ℤ until) × (written ≡ [])

-- The next check that the refresher or the second lookup reports.
abbrev pub reported : PollResult → Option FailedFeed → Option Time
reported (poll_failed feed) again = feed.next_check_at
reported other_error (some feed) = feed.next_check_at
reported other_error none = none
reported succeeded again = none
reported (retry_later at persisted bridge_wide) again = none

abbrev pub by_refresher : PollResult → Bool
by_refresher (retry_later at persisted bridge_wide) = persisted
by_refresher succeeded = false
by_refresher (poll_failed feed) = false
by_refresher other_error = false

-- Whether a poll leaves the feed not due: the refresher has persisted a time, or reports one to come,
-- or the worker defers or writes.
abbrev pub is_held_back : Time → PollResult → Option FailedFeed → Polled → Bool
is_held_back now result again (defer_none, []) =
    by_refresher result || is_planned now (reported result again)
is_held_back now result again (defer_none, t ∷ written) = true
is_held_back now result again (defer_feed until, written) = true
is_held_back now result again (defer_bridge until, written) = true

-- A poll that did not succeed, and whose feed is found.
abbrev pub is_unfinished : PollResult → Option FailedFeed → Bool
is_unfinished succeeded again = false
is_unfinished (retry_later at persisted bridge_wide) again = true
is_unfinished (poll_failed feed) again = true
is_unfinished other_error none = false
is_unfinished other_error (some feed) = true

later_of_clamp :
    (now : Time) (d lo hi : Duration)
    → pos 0 <ℤ lo
    → lo ≤ℤ hi
    → now <ℤ now +ℤ clamp_poll_duration d lo hi
later_of_clamp now d lo hi h k = omega (int_laws, clamp_bounds d lo hi h k)

delay_is_positive :
    (now : Time) (lo hi : Duration) (interval errors : ℤ)
    → pos 0 <ℤ lo
    → lo ≤ℤ hi
    → now <ℤ feed_next_check_after_error now interval errors lo hi
unfolding feed_next_check_after_error feed_error_poll_delay
delay_is_positive now lo hi interval errors h k = later_of_clamp now _ lo hi h k

not_at_once_later : (now at : Time) → now +ℤ pos (50 * millisecond) ≤ℤ not_at_once now at
not_at_once_later now at = elim (Bool-cases (before at (now +ℤ pos (50 * millisecond)))) [
  | inl soon ↦ rw soon (omega int_laws)
  | inr later ↦ rw later (ground arith)
]

short_wait :
    (now at : Time) → leb_ℤ (at -ℤ now) memory_defer_max ≡ true → at ≤ℤ now +ℤ memory_defer_max
short_wait now at short = ground (arith, -ℤ_parts at now, +ℤ_parts now memory_defer_max)

module _ (lo hi : Duration) (now : Time) (h : pos 0 <ℤ lo) (k : lo ≤ℤ hi) where
  deferred_to-IsHeld :
      (at : Time) (result : PollResult) (again : Option FailedFeed) (bridge_wide : Bool)
      → now +ℤ pos (50 * millisecond) ≤ℤ at
      → IsHeld now (deferred_to now at bridge_wide)
        × (is_held_back now result again (deferred_to now at bridge_wide) ≡ true)
  deferred_to-IsHeld at result again true later = ((later, refl), refl)
  deferred_to-IsHeld at result again false later =
      elim (Bool-cases (leb_ℤ (at -ℤ now) memory_defer_max)) [
        | inl short ↦ rw short ((later, short_wait now at short, refl), refl)
        | inr long ↦ rw long ((omega (int_laws, later), tt), refl)
      ]

  after_failure-IsHeld :
      (feed : FailedFeed) (result : PollResult) (again : Option FailedFeed)
      → reported result again ≡ feed.next_check_at
      → IsHeld now (after_failure lo hi now feed)
        × (is_held_back now result again (after_failure lo hi now feed) ≡ true)
  unfolding after_failure
  after_failure-IsHeld feed result again same =
      elim (Bool-cases (is_planned now feed.next_check_at)) [
        | inl planned ↦ rw planned (tt, ground arith)
        | inr due ↦ rw due (
          (delay_is_positive now lo hi feed.interval_minutes feed.parsing_error_count h k, tt),
          refl,
        )
      ]

  after_poll-IsHeld :
      (result : PollResult) (again : Option FailedFeed)
      → is_unfinished result again ≡ true
      → IsHeld now (after_poll lo hi now result again)
        × (is_held_back now result again (after_poll lo hi now result again) ≡ true)
  unfolding after_poll
  after_poll-IsHeld succeeded again unfinished = cc
  after_poll-IsHeld (retry_later at true bridge_wide) again unfinished = (tt, refl)
  after_poll-IsHeld (retry_later at false bridge_wide) again unfinished =
      deferred_to-IsHeld (not_at_once now at) (retry_later at false bridge_wide) again bridge_wide
        (not_at_once_later now at)
  after_poll-IsHeld (poll_failed feed) again unfinished =
      after_failure-IsHeld feed (poll_failed feed) again refl
  after_poll-IsHeld other_error none unfinished = cc
  after_poll-IsHeld other_error (some feed) unfinished =
      after_failure-IsHeld feed other_error (some feed) refl

  -- With the bounds in order, a poll of a feed that is found and not paused, which does not succeed
  -- (and whose second lookup, where there is one, finds the feed), leaves the feed not due: it is
  -- deferred in memory, or its next check is written, or the refresher reports one to come. A deferral
  -- is by 50 milliseconds at least, that of a single feed by a minute at most, and goes without a
  -- write; a written time is later than the poll.
  pub process_poll_feed-IsHeld :
      (feed : Feed) (result : PollResult) (again : Option FailedFeed)
      → feed_polling_blocked feed ≡ false
      → is_unfinished result again ≡ true
      → IsHeld now (process_poll_feed lo hi now (some feed) result again)
        × (is_held_back now result again (process_poll_feed lo hi now (some feed) result again)
            ≡ true)
  unfolding process_poll_feed
  process_poll_feed-IsHeld feed result again on unfinished =
      rw on (after_poll-IsHeld result again unfinished)

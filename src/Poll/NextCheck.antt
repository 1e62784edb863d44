-- ===== src/Poll/NextCheck.antt =====
-- internal/service/feed_refresher.go: when a feed is polled again after a poll that succeeded.
-- The clock and the activity store are arguments.
pub mod Bounds
use rssam.Common.{◌*◌, Bool, true, false, not, ◌&&◌, ◌||◌, Option, none, some, if◌then◌else◌}
use rssam.Common.Int.{ℤ, pos, ◌+ℤ◌, ◌-ℤ◌, ltb_ℤ, leb_ℤ, eq_ℤ}
use rssam.Poll.Schedule.{
  Duration, Time, minute, hour, adaptive_poll_window, feed_next_check_at, adaptive_poll_interval,
}

-- The settings of a `FeedRefresher` that the schedule depends on.
pub record Settings : Type 0 where
  pub min_poll_interval : Duration
  pub max_poll_interval : Duration
  pub adaptive_max_interval : Duration
  pub silent_after : Duration
  pub silent_interval : Duration

-- The fields of `storage.Feed` that the schedule depends on.
pub record Timing : Type 0 where
  pub interval_minutes : ℤ
  pub adaptive_interval : Bool
  pub created_at : Time
  pub last_entry_at : Option Time

-- `CountFeedItemsSince`: `none` is its error. The store itself may be nil.
abbrev pub Activity : Type 0
Activity = Option (Time → Option ℤ)

-- `t.IsZero()` and `t.After(u)`.
abbrev pub is_zero : Time → Bool
is_zero t = eq_ℤ t (pos 0)

abbrev pub after : Time → Time → Bool
after t u = ltb_ℤ u t

-- `pollBounds`, its two results.
abbrev pub poll_min : Settings → Duration
poll_min r = if leb_ℤ r.min_poll_interval (pos 0) then pos minute else r.min_poll_interval

abbrev pub poll_max : Settings → Duration
poll_max r = if leb_ℤ r.max_poll_interval (pos 0) then pos (24 * hour) else r.max_poll_interval

-- `lastItem`: the last entry, or the creation of the feed.
abbrev pub last_item : Timing → Time
last_item feed = elim feed.last_entry_at [ none ↦ feed.created_at | some t ↦ t ]

abbrev silent_for : Timing → Time → ℤ → Duration
silent_for feed now items =
    if eq_ℤ items (pos 0) && not (is_zero (last_item feed)) then now -ℤ last_item feed else pos 0

-- The end of `adaptiveNextCheck`, with the count of the week.
abbrev stretched : Timing → Time → Duration → Duration → Duration → Option ℤ → Time
stretched feed now base ceiling hi none = pos 0
stretched feed now base ceiling hi (some items) =
    now +ℤ adaptive_poll_interval base items (silent_for feed now items) ceiling hi

unfoldable pub adaptive_next_check :
    Settings → Activity → Timing → Time → Duration → Duration → Time
adaptive_next_check r none feed now lo hi = pos 0
adaptive_next_check r (some count_items_since) feed now lo hi =
    if not feed.adaptive_interval || leb_ℤ r.adaptive_max_interval (pos 0)
    then pos 0
    else let ceiling = if ltb_ℤ hi r.adaptive_max_interval then hi else r.adaptive_max_interval in
      let base = feed_next_check_at now feed.interval_minutes lo hi -ℤ now in
      if leb_ℤ ceiling base
      then pos 0
      else stretched feed now base ceiling hi (count_items_since (now -ℤ pos adaptive_poll_window))

-- The last step of `nextCheckAfterPoll`: the freshness hint of the source.
abbrev with_hint : Time → Time → Time → Time
with_hint next min_next_check limit =
    if after min_next_check next
    then (if after min_next_check limit then limit else min_next_check)
    else next

unfoldable pub next_check_after_poll : Settings → Activity → Timing → Time → Time → Time
next_check_after_poll r activity feed now min_next_check =
    let lo = poll_min r in
    let hi = poll_max r in
    let base = feed_next_check_at now feed.interval_minutes lo hi in
    let adaptive = adaptive_next_check r activity feed now lo hi in
    let next = if after adaptive base then adaptive else base in
    with_hint next min_next_check (now +ℤ hi)

abbrev postponed : Time → Time → Time × Bool
postponed silent_next next = if after silent_next next then (silent_next, true) else (next, false)

-- The result and whether the feed counts as silent.
unfoldable pub silent_next_check : Settings → Timing → Time → Time → Time × Bool
silent_next_check r feed now next =
    if leb_ℤ r.silent_after (pos 0) || leb_ℤ r.silent_interval (pos 0)
    then (next, false)
    else if is_zero (last_item feed) || ltb_ℤ (now -ℤ last_item feed) r.silent_after
    then (next, false)
    else let hi = poll_max r in
      let d = if ltb_ℤ (pos 0) hi && ltb_ℤ hi r.silent_interval then hi else r.silent_interval in
      postponed (now +ℤ d) next

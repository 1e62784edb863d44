-- ===== src/Worker/Polling.antt =====
-- `processPollFeed`, `workerLoop` and `dispatchLoop` of internal/worker/runner.go and `idleWait` of
-- due_wait.go: what happens to a feed after its poll, and what the dispatcher does in one round. Log
-- lines and metrics are left out.
pub mod Held
pub mod Rounds
pub mod Tests
use Prim.Native.Nat.{min}
use rssam.Common.{
  ℕ, ◌*◌, ◌-◌, ◌≤◌, Bool, true, false, not, ◌&&◌, ◌||◌, Option, none, some, List, [], ◌∷◌, ◌++◌,
  if◌then◌else◌, length, leb,
}
use rssam.Common.Int.{ℤ, pos, ◌+ℤ◌, ◌-ℤ◌, ltb_ℤ, leb_ℤ, min_ℤ, max_ℤ}
use rssam.Common.Maps.{id_key, text_key}
use rssam.Common.Text.{Text}
use rssam.Poll.Schedule.{Duration, Time, second, minute, feed_next_check_after_error}
use rssam.Poll.NextCheck.{is_zero}
use rssam.Poll.Refresh.{Feed, feed_polling_blocked}
use rssam.Worker.Inflight.{InflightPolls, start, done, exclude}
use rssam.Worker.Pauses.{DuePauses, before, pause, active}

abbrev pub millisecond : ℕ
millisecond = 1000000

abbrev pub memory_defer_max : Duration
memory_defer_max = pos minute

-- The fields of the feed after a failed poll that the next check depends on.
pub record FailedFeed : Type 0 where
  pub interval_minutes : ℤ
  pub parsing_error_count : ℤ
  pub next_check_at : Option Time

-- The error of `RefreshLoadedFeed`: none; one with a `RetryAt` that is not the zero time, and whether
-- it says `NextCheckPersisted` and `DeferBridgeWide`; a `PollFailed` with its feed; or another one.
pub data PollResult : Type 0 where
  succeeded : PollResult
  retry_later : Time → Bool → Bool → PollResult
  poll_failed : FailedFeed → PollResult
  other_error : PollResult

-- `deferScope` with its time.
pub data Deferral : Type 0 where
  defer_none : Deferral
  defer_feed : Time → Deferral
  defer_bridge : Time → Deferral

-- The deferral, and the times that `SetFeedNextCheckAt` writes.
abbrev pub Polled : Type 0
Polled = Deferral × List Time

-- `at` after the correction of a moment that is past or nearly so.
abbrev pub not_at_once : Time → Time → Time
not_at_once now at = if before at (now +ℤ pos (50 * millisecond)) then now +ℤ pos second else at

abbrev pub deferred_to : Time → Time → Bool → Polled
deferred_to now at bridge_wide =
    if bridge_wide
    then (defer_bridge at, [])
    else if leb_ℤ (at -ℤ now) memory_defer_max
    then (defer_feed at, [])
    else (defer_none, at ∷ [])

-- Whether the refresher has written a next check that is to come.
abbrev pub is_planned : Time → Option Time → Bool
is_planned now none = false
is_planned now (some next) = ltb_ℤ now next

module _ (lo hi : Duration) (now : Time) where
  unfoldable pub after_failure : FailedFeed → Polled
  after_failure feed = if is_planned now feed.next_check_at then (defer_none, []) else (
    defer_none,
    feed_next_check_after_error now feed.interval_minutes feed.parsing_error_count lo hi ∷ [],
  )

  abbrev pub after_lookup : Option FailedFeed → Polled
  after_lookup none = (defer_none, [])
  after_lookup (some feed) = after_failure feed

  -- After the call of the refresher; `again` is the second lookup of the feed.
  unfoldable pub after_poll : PollResult → Option FailedFeed → Polled
  after_poll succeeded again = (defer_none, [])
  after_poll (retry_later at persisted bridge_wide) again =
      if persisted then (defer_none, []) else deferred_to now (not_at_once now at) bridge_wide
  after_poll (poll_failed feed) again = after_failure feed
  after_poll other_error again = after_lookup again

  -- `lookup` is the first answer of `GetFeedByID`, none on an error.
  unfoldable pub process_poll_feed : Option Feed → PollResult → Option FailedFeed → Polled
  process_poll_feed none result again = (defer_none, [])
  process_poll_feed (some feed) result again =
      if feed_polling_blocked feed then (defer_none, []) else after_poll result again

-- What the dispatcher of the feeds keeps in memory.
pub record Feeds : Type 0 where
  pub inflight : InflightPolls
  pub deferred_feeds : DuePauses ℕ
  pub deferred_bridges : DuePauses Text

-- The rest of a round of `workerLoop`, for the feed `id` of a type.
unfoldable pub after_work : ℕ → Text → Time → Deferral → Feeds → Feeds
after_work id feed_type at defer_none s = record s { inflight = done id at s.inflight }
after_work id feed_type at (defer_feed until) s = record s {
  inflight = done id at s.inflight;
  deferred_feeds = pause id until s.deferred_feeds;
}
after_work id feed_type at (defer_bridge until) s = record s {
  inflight = done id at s.inflight;
  deferred_bridges = pause feed_type until s.deferred_bridges;
}

-- `resume` of the feeds and the bridges together.
abbrev pub earlier_resume : Option Time → Option Time → Option Time
earlier_resume o none = o
earlier_resume none (some bridge_resume) = some bridge_resume
earlier_resume (some resume) (some bridge_resume) =
    if before bridge_resume resume then some bridge_resume else some resume

-- The feeds and the bridges that a query leaves out, and the moment the first of the deferred resumes.
pub record Query : Type 0 where
  pub exclude_feeds : List ℕ
  pub exclude_bridges : List Text
  pub resume : Option Time

unfoldable pub query_of : Time → Feeds → Query
query_of now s = record {
  exclude_feeds = (exclude now s.inflight).1 ++ (active now s.deferred_feeds).1;
  exclude_bridges = (active now s.deferred_bridges).1;
  resume = earlier_resume (active now s.deferred_feeds).2 (active now s.deferred_bridges).2;
}

-- What the query leaves of the sets: `exclude` and `active` forget what is over.
unfoldable pub after_query : Time → Feeds → Feeds
after_query now s = record {
  inflight = (exclude now s.inflight).0;
  deferred_feeds = (active now s.deferred_feeds).0;
  deferred_bridges = (active now s.deferred_bridges).0;
}

-- The steps of the workers and of the dispatcher on the sets.
pub data Event : Type 0 where
  worked : ℕ → Text → Time → Deferral → Event
  queried : Time → Event
  handed_out : ℕ → Time → Event

unfoldable pub after_event : Event → Feeds → Feeds
after_event (worked id feed_type at deferral) s = after_work id feed_type at deferral s
after_event (queried now) s = after_query now s
after_event (handed_out id at) s = record s { inflight = start id at s.inflight }

unfoldable pub after_events : List Event → Feeds → Feeds
after_events [] s = s
after_events (e ∷ es) s = after_events es (after_event e s)

-- `idleWait`, the time it waits unless it is woken; none is a `next` that is not known.
unfoldable pub idle_wait : Time → Option Time → Duration → Duration
idle_wait now none max_wait = max_ℤ max_wait (min_ℤ max_wait (pos second))
idle_wait now (some next) max_wait =
    max_ℤ (min_ℤ max_wait (next -ℤ now)) (min_ℤ max_wait (pos second))

-- What a round of `dispatchLoop` comes to: a wait, or feeds that are marked and handed to the workers.
pub data Round : Type 0 where
  nap : Duration → Round
  hand : List ℕ → Round

-- The store: `ListFeedsDue` with its limit, and `NextFeedDueAt`, none where it fails or knows none.
pub record DueStore : Type 0 where
  pub list_feeds_due : ℕ → Query → Option (List ℕ)
  pub next_feed_due_at : Query → Option Time

abbrev pub after_listing : DueStore → Duration → Time → Query → Option (List ℕ) → Round
after_listing store tick now q none = nap (idle_wait now none tick)
after_listing store tick now q (some []) =
    nap (idle_wait now (earlier_resume (store.next_feed_due_at q) q.resume) tick)
after_listing store tick now q (some (d ∷ due)) = hand (d ∷ due)

-- One round, for `capacity - queued` places in the channel and a pool of some workers; the clock is
-- read once.
unfoldable pub dispatch_round : DueStore → Duration → ℕ → Bool → ℕ → ℕ → Time → Feeds → Round
dispatch_round store tick pool paused capacity queued now s =
    if paused
    then nap (idle_wait now none tick)
    else if leb capacity queued
    then nap (idle_wait now (some (now +ℤ pos second)) (pos second))
    else (let q = query_of now s in
        after_listing store tick now q (store.list_feeds_due (min pool (capacity - queued)) q))

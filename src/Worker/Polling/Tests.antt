-- ===== src/Worker/Polling/Tests.antt =====
-- Polls and rounds of the dispatcher, and the theorems applied to them.
use rssam.Common.{
  ℕ, ◌*◌, ◌≡◌, refl, true, false, not, Option, none, some, List, [], ◌∷◌, arith, any, ◌==◌, keep_if,
  ==_iff, Bool-cases, inl, inr,
}
use rssam.Common.Int.{pos, ◌+ℤ◌, ◌-ℤ◌, ◌*ℤ◌, wrap64}
use rssam.Common.Maps.{id_key, text_key, find, insert, delete}
use rssam.Common.Text.{codes}
use rssam.Poll.Schedule.{
  Time, second, minute, hour, feed_next_check_after_error, feed_error_poll_delay,
  feed_base_poll_interval, clamp_poll_duration,
}
use rssam.Poll.Refresh.{Feed, feed_polling_blocked}
use rssam.Worker.Inflight.{init, start, done, exclude, exclude_loop}
use rssam.Worker.Pauses.{pause, active, paused_until}
use rssam.Worker.Polling.{
  FailedFeed, succeeded, retry_later, poll_failed, other_error, defer_none, defer_feed,
  defer_bridge, Feeds, after_failure, after_poll, process_poll_feed, after_work, query_of,
  after_query, Event, queried, handed_out, after_event, after_events, idle_wait, nap, hand,
  DueStore, dispatch_round,
}
use rssam.Worker.Polling.Held.{IsHeld, is_held_back, process_poll_feed-IsHeld}
use rssam.Worker.Polling.Rounds.{deferred-dispatch_round}

polling : Unit {0}
unfolding after_failure after_poll process_poll_feed after_work query_of after_query after_event
    after_events idle_wait dispatch_round feed_polling_blocked feed_next_check_after_error
    feed_error_poll_delay feed_base_poll_interval clamp_poll_duration init start done exclude
    exclude_loop pause active paused_until find insert delete ◌+ℤ◌ ◌-ℤ◌ ◌*ℤ◌ wrap64
polling = tt

abbrev feed : Feed
feed = record {
  id = 4;
  inbound = false;
  manual_paused = false;
  poll_paused = false;
  parsing_error_count = pos 0;
  timing = record {
    interval_minutes = pos 30;
    adaptive_interval = false;
    created_at = pos 0;
    last_entry_at = none;
  };
}

abbrev now : Time
now = pos (100 * hour)

abbrev failed : Option Time → FailedFeed
failed next = record {
  interval_minutes = pos 30;
  parsing_error_count = pos 1;
  next_check_at = next;
}

-- A wait of 20 seconds is held in memory, one of an hour is written; a second for a moment that is past;
-- a failure without a next check gets twice the interval.
poll_runs :
    (process_poll_feed
        (pos minute)
        (pos hour)
        now
        (some feed)
        (retry_later (now +ℤ pos (20 * second)) false false)
        none
      ≡ (defer_feed (now +ℤ pos (20 * second)), []))
    × (process_poll_feed
          (pos minute)
          (pos hour)
          now
          (some feed)
          (retry_later (now +ℤ pos hour) false false)
          none
        ≡ (defer_none, (now +ℤ pos hour) ∷ []))
    × (process_poll_feed (pos minute) (pos hour) now (some feed) (retry_later now false true) none
        ≡ (defer_bridge (now +ℤ pos second), []))
    × (process_poll_feed
          (pos minute)
          (pos (2 * hour))
          now
          (some feed)
          (poll_failed (failed none))
          none
        ≡ (defer_none, (now +ℤ pos hour) ∷ []))
    × (process_poll_feed (pos minute) (pos hour) now none succeeded none ≡ (defer_none, []))
unfolding polling
poll_runs = (refl, refl, refl, refl, refl)

process_poll_feed-IsHeld_example :
    IsHeld now
      (process_poll_feed (pos minute) (pos hour) now (some feed) other_error (some (failed none)))
    × (is_held_back now other_error (some (failed none)) (
          process_poll_feed
            (pos minute)
            (pos hour)
            now
            (some feed)
            other_error
            (some (failed none)))
        ≡ true)
unfolding polling
process_poll_feed-IsHeld_example =
    process_poll_feed-IsHeld (pos minute) (pos hour) now (omega arith) (omega arith) feed
      other_error (some (failed none)) refl refl

-- Feeds 4, 7 and 9 are due.
abbrev store : DueStore
store = record {
  list_feeds_due =
      λ limit q. some (keep_if (λ d. not (any (λ j. j == d) q.exclude_feeds)) (4 ∷ 7 ∷ 9 ∷ []));
  next_feed_due_at = λ q. none;
}

abbrev feeds : Feeds
feeds = record {
  inflight = record { polls = []; stale_after = pos (2 * minute); finished_grace = pos second };
  deferred_feeds = [];
  deferred_bridges = [];
}

abbrev until : Time
until = now +ℤ pos minute

abbrev events : List Event
events = queried now ∷ handed_out 7 now ∷ []

abbrev soon : Time
soon = now +ℤ pos (10 * second)

round_runs :
    (dispatch_round store
        (pos (30 * second))
        3
        false
        6
        0
        soon
        (after_events events (after_work 4 (codes "rss") now (defer_feed until) feeds))
      ≡ hand (9 ∷ []))
    × (dispatch_round store (pos (30 * second)) 3 false 6 6 now feeds ≡ nap (pos second))
    × (dispatch_round store (pos (30 * second)) 3 true 6 0 now feeds ≡ nap (pos (30 * second)))
unfolding polling
round_runs = (refl, refl, refl)

keep_if-any :
    (id : ℕ) (xs ids : List ℕ)
    → any (λ j. j == id) ids ≡ true
    → any (λ j. j == id) (keep_if (λ d. not (any (λ j. j == d) ids)) xs) ≡ false
keep_if-any id [] ids h = refl
keep_if-any id (x ∷ xs) ids h = elim (Bool-cases (x == id)) [
  | inl e ↦ rw ((==_iff x id).0 e, h) (keep_if-any id xs ids h)
  | inr e ↦ ground (arith, keep_if-any id xs ids h)
]

deferred-dispatch_round_example : any (λ j. j == 4) (9 ∷ []) ≡ false
unfolding polling
deferred-dispatch_round_example =
    deferred-dispatch_round store (pos (30 * second)) 3 false 6 0 4 (codes "rss") now until soon
      events feeds (9 ∷ [])
      (λ limit q listed e h. ground (arith, keep_if-any 4 (4 ∷ 7 ∷ 9 ∷ []) q.exclude_feeds h)) tt
      (omega arith) (omega arith, (tt, tt)) (omega arith) refl

-- Nothing else is due.
abbrev deferred_feeds : Feeds
deferred_feeds = record feeds { deferred_feeds = (4, until) ∷ [] }

-- ===== src/Poll/Refresh/Laws.antt =====
-- When a poll asks its source, and what it leaves as the next check.
use rssam.Common.{
  ℕ, ◌≡◌, Bool, true, false, not, ◌&&◌, ◌||◌, Option, none, some, List, [], ◌∷◌, ◌^◌, ltb, All,
  arith, if◌then◌else◌, Bool-cases, inl, inr,
}
use rssam.Common.Int.{ℤ, pos, ◌+ℤ◌, ◌*ℤ◌, wrap64, ◌≤ℤ◌, int_laws}
use rssam.Poll.Schedule.{
  Time, feed_error_poll_delay, feed_next_check_after_error, feed_base_poll_interval, backoff_shift,
}
use rssam.Poll.Schedule.Backoff.{clamp_bounds}
use rssam.Poll.Window.{PollWindow, Zone, contains}
use rssam.Poll.Window.Opening.{IsValid, HasOpening, contains-next_open}
use rssam.Service.HostLimit.{host_busy_retry}
use rssam.Poll.NextCheck.{Settings, Activity, poll_min, poll_max}
use rssam.Poll.NextCheck.Bounds.{poll_min_pos}
use rssam.Poll.Refresh.{
  Feed, feed_polling_blocked, Fetch, World, Effect, ask_source, inbound_feed, circuit_open,
  outside_poll_window, host_busy, fetched, update_meta, store_entries, after_store, set_next_check,
  record_failure, set_manual_paused, record_poll, publish, Outcome, failure_of, opened, scheduled,
  finish_poll, with_entries, after_fetch, outside, ask, refresh_loaded,
}

gated :
    (inbound manual blocked closed slot : Bool) (o1 o2 o3 o4 : Outcome)
    (asked : List Effect × Outcome)
    → inbound ≡ false
    → (if inbound
        then ([], o1)
        else if not manual && blocked
        then ([], o2)
        else if not manual && closed
        then ([], o3)
        else if not manual && not slot
        then ([], o4)
        else asked).0
      ≡ (if manual || not blocked && not closed && slot then asked.0 else [])
gated inbound manual blocked closed slot o1 o2 o3 o4 asked h = ground arith

module _ (zone : Zone) (r : Settings) (breaker : ℤ) (activity : Activity) (w : World)
    (feed : Feed) where
  -- A background poll that the feed's pauses, its window or its host forbid has no effect at all; any
  -- other poll of a feed that is not inbound asks the source.
  refresh_loaded-ask :
      (manual : Bool)
      → feed.inbound ≡ false
      → (refresh_loaded zone r breaker activity w feed manual).0 ≡ (
          if manual
            || not (feed_polling_blocked feed)
              && not (outside zone r breaker activity w feed w.window)
              && w.slot
          then ask_source ∷ (after_fetch zone r breaker activity w feed w.fetch).0
          else [])
  unfolding refresh_loaded
  refresh_loaded-ask manual h =
      gated feed.inbound manual (feed_polling_blocked feed)
        (outside zone r breaker activity w feed w.window) w.slot inbound_feed circuit_open
        (outside_poll_window (opened zone r breaker activity w feed w.window w.now))
        (host_busy (host_busy_retry w.now feed.id)) (ask zone r breaker activity w feed) h

  refresh_loaded-inbound :
      (manual : Bool)
      → feed.inbound ≡ true
      → (refresh_loaded zone r breaker activity w feed manual).0 ≡ []
  unfolding refresh_loaded
  refresh_loaded-inbound manual h = ground arith

  -- With the bounds in order, a failed poll is tried again not before the minimal interval has passed,
  -- and not after the maximal one, whatever the number of errors.
  pub failure_of_bounds :
      (bot_challenge : Bool)
      → poll_min r ≤ℤ poll_max r
      → (w.now +ℤ poll_min r ≤ℤ (failure_of zone r breaker activity w feed bot_challenge).2)
        × ((failure_of zone r breaker activity w feed bot_challenge).2 ≤ℤ w.now +ℤ poll_max r)
  unfolding failure_of feed_next_check_after_error feed_error_poll_delay
  failure_of_bounds true ordered = (omega int_laws, omega arith)
  failure_of_bounds false ordered =
      let bounds =
        clamp_bounds
          (wrap64 (
            feed_base_poll_interval feed.timing.interval_minutes (poll_min r) (poll_max r)
            *ℤ pos (2 ^ backoff_shift (feed.parsing_error_count +ℤ pos 1))))
          (poll_min r) (poll_max r) (poll_min_pos r) ordered in
      (omega (int_laws, bounds), omega (int_laws, bounds))

  -- A moment in the window, where there is one.
  abbrev pub IsOpen : Option PollWindow → Time → Type 0
  IsOpen none t = Unit
  IsOpen (some window) t = contains zone window t ≡ true

  -- Every next check that a poll writes after it was stored or found unchanged is in the window.
  abbrev pub IsPlanned : Effect → Type 0
  IsPlanned ask_source = Unit
  IsPlanned (update_meta next) = IsOpen w.window next
  IsPlanned (store_entries next meta_stored) = IsOpen w.window next
  IsPlanned after_store = Unit
  IsPlanned (set_next_check next) = IsOpen w.window next
  IsPlanned (record_failure count paused next) = Unit
  IsPlanned set_manual_paused = Unit
  IsPlanned (record_poll ok) = Unit
  IsPlanned (publish next) = Unit

  -- The window is valid, and opens on every local day.
  abbrev pub IsValidWindow : Option PollWindow → Type 0
  IsValidWindow none = Unit
  IsValidWindow (some window) = IsValid window × HasOpening zone window

  opened-IsOpen :
      (o : Option PollWindow) (t : Time)
      → IsValidWindow o
      → IsOpen o (opened zone r breaker activity w feed o t)
  opened-IsOpen none t v = tt
  opened-IsOpen (some window) t v = contains-next_open zone window t v.0 v.1

  module _ (v : IsValidWindow w.window) where
    scheduled-IsOpen :
        (hint : Time) → IsOpen w.window (scheduled zone r breaker activity w feed hint).0
    unfolding scheduled
    scheduled-IsOpen hint = opened-IsOpen w.window _ v

    finish_poll-IsPlanned :
        (hint : Time) (new_entries : ℕ) (meta_stored : Bool)
        → All IsPlanned (finish_poll zone r breaker activity w feed hint new_entries meta_stored)
    unfolding finish_poll
    finish_poll-IsPlanned hint new_entries true =
        elim (Bool-cases ((scheduled zone r breaker activity w feed hint).1 && ltb 0 new_entries)) [
          | inl woke ↦ rw woke (opened-IsOpen w.window _ v, (tt, (tt, tt)))
          | inr same ↦ rw same (tt, (tt, tt))
        ]
    finish_poll-IsPlanned hint new_entries false =
        elim (Bool-cases ((scheduled zone r breaker activity w feed hint).1 && ltb 0 new_entries)) [
          | inl woke ↦ rw woke (opened-IsOpen w.window _ v, (tt, (tt, tt)))
          | inr same ↦ rw same (scheduled-IsOpen hint, (tt, (tt, tt)))
        ]

    with_entries-IsPlanned :
        (hint : Time) (o : Option (ℕ × Bool))
        → All IsPlanned (with_entries zone r breaker activity w feed hint o).0
    with_entries-IsPlanned hint none = (tt, (tt, (tt, tt)))
    with_entries-IsPlanned hint (some (new_entries, meta_stored)) =
        (scheduled-IsOpen hint, (tt, finish_poll-IsPlanned hint new_entries meta_stored))

    after_fetch-IsPlanned :
        (not_modified : Bool) (hint : Time)
        → All IsPlanned (after_fetch zone r breaker activity w feed (fetched not_modified hint)).0
    unfolding after_fetch
    after_fetch-IsPlanned true hint = finish_poll-IsPlanned hint 0 false
    after_fetch-IsPlanned false hint = with_entries-IsPlanned hint w.stored

    answered-IsPlanned :
        (not_modified : Bool) (hint : Time) (o : Fetch)
        → o ≡ fetched not_modified hint
        → All IsPlanned (after_fetch zone r breaker activity w feed o).0
    answered-IsPlanned not_modified hint o e = rw e (after_fetch-IsPlanned not_modified hint)

    asked-IsPlanned :
        (go : Bool) (es : List Effect)
        → All IsPlanned es
        → All IsPlanned (if go then ask_source ∷ es else [])
    asked-IsPlanned true es h = (tt, h)
    asked-IsPlanned false es h = tt

    -- Where the source answers, every next check that the poll writes for the feed lies in the valid
    -- window of its category, silent feeds and freshness hints included; the next check of a poll that
    -- fails to store is not meant. The local zone may change its offset, but no change skips the minute
    -- at which the window opens.
    pub refresh_loaded-IsPlanned :
        (manual not_modified : Bool) (hint : Time)
        → w.fetch ≡ fetched not_modified hint
        → All IsPlanned (refresh_loaded zone r breaker activity w feed manual).0
    refresh_loaded-IsPlanned manual not_modified hint e = elim (Bool-cases feed.inbound) [
      | inl never ↦ rw (refresh_loaded-inbound manual never) tt
      | inr may ↦ rw (refresh_loaded-ask manual may) (
          asked-IsPlanned _ (after_fetch zone r breaker activity w feed w.fetch).0
            (answered-IsPlanned not_modified hint w.fetch e))
    ]

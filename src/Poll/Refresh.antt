-- ===== src/Poll/Refresh.antt =====
-- `refreshLoaded`, `recordFailure`, `failPoll` and `deferLayout` of internal/service/feed_refresher.go:
-- one poll of a feed, a function of the feed and of what the world answers, with its writes in order.
-- The contents of the entries, ETags and bridge states are left out, and the calls that only log;
-- `record_poll` and `publish` stand for calls that do nothing where their receiver is not set.
pub mod Laws
pub mod Tests
use rssam.Common.{
  ℕ, zero, suc, ◌+◌, Bool, true, false, not, ◌&&◌, ◌||◌, Option, none, some, List, [], ◌∷◌, ◌++◌,
  if◌then◌else◌, ltb,
}
use rssam.Common.Int.{ℤ, pos, ◌+ℤ◌, ltb_ℤ, leb_ℤ}
use rssam.Poll.Schedule.{Time, feed_next_check_after_error}
use rssam.Poll.Window.{PollWindow, Zone, contains, next_open}
use rssam.Service.HostLimit.{host_busy_retry}
use rssam.Poll.NextCheck.{
  Settings, Timing, Activity, poll_min, poll_max, next_check_after_poll, silent_next_check,
}

-- The fields of `storage.Feed` that decide about a poll.
pub record Feed : Type 0 where
  pub id : ℕ
  pub inbound : Bool
  pub manual_paused : Bool
  pub poll_paused : Bool
  pub parsing_error_count : ℤ
  pub timing : Timing

-- `FeedPollingBlocked`
unfoldable pub feed_polling_blocked : Feed → Bool
feed_polling_blocked f = f.manual_paused || f.poll_paused || f.inbound

-- The answer of `Registry.Fetch`: an error of the proxy, of the page layout, of a limiter of ours with
-- its time, or of the source (is it gone, is it a bot challenge), or a result.
pub data Fetch : Type 0 where
  proxy_unavailable : Fetch
  layout_error : Fetch
  retry_at : Time → Fetch
  fetch_failed : Bool → Bool → Fetch
  fetched : Bool → Time → Fetch

-- `slot` is whether the host limiter grants a slot; `stored` is the answer of `storeFetched`, the new
-- entries and whether the meta data went with them.
pub record World : Type 0 where
  pub now : Time
  pub window : Option PollWindow
  pub slot : Bool
  pub fetch : Fetch
  pub stored : Option (ℕ × Bool)

pub data Effect : Type 0 where
  ask_source : Effect
  update_meta : Time → Effect
  store_entries : Time → Bool → Effect
  after_store : Effect
  set_next_check : Time → Effect
  record_failure : ℤ → Bool → Time → Effect
  set_manual_paused : Effect
  record_poll : Bool → Effect
  publish : Time → Effect

pub data Outcome : Type 0 where
  inbound_feed : Outcome
  circuit_open : Outcome
  outside_poll_window : Time → Outcome
  host_busy : Time → Outcome
  deferred : Time → Outcome
  layout_deferred : Time → Outcome
  poll_failed : Outcome
  polled : ℕ → Outcome

unfoldable pub circuit_threshold : ℤ → ℤ
circuit_threshold configured = if ltb_ℤ (pos 0) configured then configured else pos 10

module _ (zone : Zone) (r : Settings) (breaker : ℤ) (activity : Activity) (w : World)
    (feed : Feed) where
  -- `recordFailure`: the new error count, whether the feed is paused, and the next check.
  unfoldable pub failure_of : Bool → ℤ × Bool × Time
  failure_of bot_challenge =
      let count = feed.parsing_error_count +ℤ pos 1 in
      let by_backoff =
        feed_next_check_after_error w.now feed.timing.interval_minutes count (poll_min r)
          (poll_max r) in
      (
        count,
        feed.poll_paused || leb_ℤ (circuit_threshold breaker) count,
        if bot_challenge then w.now +ℤ poll_max r else by_backoff,
      )

  abbrev pub fail_poll : Bool → Bool → List Effect × Outcome
  fail_poll gone bot_challenge =
      let (count, paused, next) = failure_of bot_challenge in
      (
        record_failure count paused next ∷ (if gone then set_manual_paused ∷ [] else [])
            ++ record_poll false ∷ publish next ∷ [],
        poll_failed,
      )

  abbrev pub opened : Option PollWindow → Time → Time
  opened none t = t
  opened (some window) t = next_open zone window t

  abbrev pub ordinary : Time → Time
  ordinary hint = next_check_after_poll r activity feed.timing w.now hint

  -- The next check of a poll that succeeded, and whether the feed counts as silent.
  unfoldable pub scheduled : Time → Time × Bool
  scheduled hint =
      let (silent_next, silent) = silent_next_check r feed.timing w.now (ordinary hint) in
      (opened w.window (if silent then silent_next else ordinary hint), silent)

  -- After the entries are stored.
  unfoldable pub finish_poll : Time → ℕ → Bool → List Effect
  finish_poll hint new_entries meta_stored =
      let (first, silent) = scheduled hint in
      if silent && ltb 0 new_entries
      then (let next = opened w.window (ordinary hint) in
          (if meta_stored then set_next_check next else update_meta next)
          ∷ record_poll true
          ∷ publish next
          ∷ [])
      else (if meta_stored then [] else update_meta first ∷ [])
        ++ record_poll true ∷ publish first ∷ []

  abbrev pub with_entries : Time → Option (ℕ × Bool) → List Effect × Outcome
  with_entries hint none = fail_poll false false
  with_entries hint (some (new_entries, meta_stored)) = (
    store_entries (scheduled hint).0 meta_stored
        ∷ after_store
        ∷ finish_poll hint new_entries meta_stored,
    polled new_entries,
  )

  unfoldable pub after_fetch : Fetch → List Effect × Outcome
  after_fetch proxy_unavailable = ([], deferred (ordinary (pos 0)))
  after_fetch layout_error =
      (update_meta (ordinary (pos 0)) ∷ [], layout_deferred (ordinary (pos 0)))
  after_fetch (retry_at at) = ([], deferred at)
  after_fetch (fetch_failed gone bot_challenge) = fail_poll gone bot_challenge
  after_fetch (fetched true hint) = (finish_poll hint 0 false, polled 0)
  after_fetch (fetched false hint) = with_entries hint w.stored

  abbrev pub outside : Option PollWindow → Bool
  outside none = false
  outside (some window) = not (contains zone window w.now)

  abbrev pub ask : List Effect × Outcome
  ask = let (effects, outcome) = after_fetch w.fetch in (ask_source ∷ effects, outcome)

  unfoldable pub refresh_loaded : Bool → List Effect × Outcome
  refresh_loaded manual =
      if feed.inbound
      then ([], inbound_feed)
      else if not manual && feed_polling_blocked feed
      then ([], circuit_open)
      else if not manual && outside w.window
      then ([], outside_poll_window (opened w.window w.now))
      else if not manual && not w.slot
      then ([], host_busy (host_busy_retry w.now feed.id))
      else ask

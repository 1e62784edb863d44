-- ===== src/Poll/NextCheck/Bounds.antt =====
-- The bounds of the next check of a feed.
use rssam.Common.{Option, none, some, ◌&&◌, ◌||◌, inl, inr, Bool-cases, arith, if◌then◌else◌}
use rssam.Common.Int.{ℤ, pos, ◌+ℤ◌, ◌-ℤ◌, ◌≤ℤ◌, ◌<ℤ◌, +ℤ_parts, int_laws, max_ℤ, ltb_ℤ, leb_ℤ}
use rssam.Poll.Schedule.{
  Duration, Time, feed_next_check_at, adaptive_poll_interval, adaptive_poll_window,
}
use rssam.Poll.Schedule.Backoff.{feed_base_poll_interval_bounds}
use rssam.Poll.Schedule.Adaptive.{adaptive_poll_interval_bounds}
use rssam.Poll.NextCheck.{
  Settings, Timing, Activity, poll_min, poll_max, adaptive_next_check, next_check_after_poll,
  silent_next_check, after, stretched, silent_for, with_hint, last_item, is_zero, postponed,
}

-- Whatever the settings, the lower poll bound is positive.
pub poll_min_pos : (r : Settings) → pos 0 <ℤ poll_min r
poll_min_pos r = ground arith

hinted-bounds :
    (base adaptive hint limit : Time)
    → base ≤ℤ limit
    → adaptive ≤ℤ limit
    → (base ≤ℤ with_hint (if after adaptive base then adaptive else base) hint limit)
      × (with_hint (if after adaptive base then adaptive else base) hint limit ≤ℤ limit)
hinted-bounds base adaptive hint limit h k = ground arith

stretched-le :
    (feed : Timing) (now : Time) (base ceiling hi : Duration) (items : Option ℤ)
    → pos 0 ≤ℤ now
    → pos 0 <ℤ base
    → base ≤ℤ hi
    → ceiling ≤ℤ hi
    → stretched feed now base ceiling hi items ≤ℤ now +ℤ hi
stretched-le feed now base ceiling hi none h k l m = omega int_laws
stretched-le feed now base ceiling hi (some items) h k l m = ground (
  arith,
  adaptive_poll_interval_bounds base items (silent_for feed now items) ceiling hi k,
  +ℤ_parts now (adaptive_poll_interval base items (silent_for feed now items) ceiling hi),
  +ℤ_parts now hi,
)

module _ (r : Settings) (feed : Timing) (now : Time) (lo hi : Duration) (now_pos : pos 0 ≤ℤ now)
    (lo_pos : pos 0 <ℤ lo) (ordered : lo ≤ℤ hi) where
  base-le : feed_next_check_at now feed.interval_minutes lo hi ≤ℤ now +ℤ hi
  unfolding feed_next_check_at
  base-le =
      omega (int_laws, feed_base_poll_interval_bounds feed.interval_minutes lo hi lo_pos ordered)

  base_pos :
      (pos 0 <ℤ feed_next_check_at now feed.interval_minutes lo hi -ℤ now)
      × (feed_next_check_at now feed.interval_minutes lo hi -ℤ now ≤ℤ hi)
  unfolding feed_next_check_at
  base_pos =
      omega (int_laws, feed_base_poll_interval_bounds feed.interval_minutes lo hi lo_pos ordered)

  adaptive-le : (activity : Activity) → adaptive_next_check r activity feed now lo hi ≤ℤ now +ℤ hi
  unfolding adaptive_next_check
  adaptive-le none = omega int_laws
  adaptive-le (some count_items_since) =
      let ceiling : Duration =
        if ltb_ℤ hi r.adaptive_max_interval then hi else r.adaptive_max_interval in
      let base : Duration = feed_next_check_at now feed.interval_minutes lo hi -ℤ now in
      ground (
        arith,
        base_pos,
        +ℤ_parts now hi,
        stretched-le feed now base ceiling hi (count_items_since (now -ℤ pos adaptive_poll_window)),
      )

-- The next check is not before the feed's own interval has passed, nor after the maximal interval,
-- whatever the activity and the freshness hint; this with bounds in order and a time that is not
-- before the zero time.
pub next_check_after_poll_bounds :
    (r : Settings) (activity : Activity) (feed : Timing) (now min_next_check : Time)
    → poll_min r ≤ℤ poll_max r
    → pos 0 ≤ℤ now
    → (feed_next_check_at now feed.interval_minutes (poll_min r) (poll_max r)
        ≤ℤ next_check_after_poll r activity feed now min_next_check)
      × (next_check_after_poll r activity feed now min_next_check ≤ℤ now +ℤ poll_max r)
unfolding next_check_after_poll
next_check_after_poll_bounds r activity feed now min_next_check ordered k =
    hinted-bounds (feed_next_check_at now feed.interval_minutes (poll_min r) (poll_max r))
      (adaptive_next_check r activity feed now (poll_min r) (poll_max r)) min_next_check
      (now +ℤ poll_max r) (base-le r feed now (poll_min r) (poll_max r) k (poll_min_pos r) ordered)
      (adaptive-le r feed now (poll_min r) (poll_max r) k (poll_min_pos r) ordered activity)

poll_max_pos : (r : Settings) → pos 0 <ℤ poll_max r
poll_max_pos r = ground arith

capped-le :
    (hi d : Duration) → pos 0 <ℤ hi → (if ltb_ℤ (pos 0) hi && ltb_ℤ hi d then hi else d) ≤ℤ hi
capped-le hi d h = ground arith

max_ℤ-bounds : (a b : ℤ) → (a ≤ℤ a) × (a ≤ℤ max_ℤ a b)
max_ℤ-bounds a b = ground arith

postponed-bounds :
    (now next d hi : ℤ)
    → d ≤ℤ hi
    → (next ≤ℤ (postponed (now +ℤ d) next).0)
      × ((postponed (now +ℤ d) next).0 ≤ℤ max_ℤ next (now +ℤ hi))
postponed-bounds now next d hi h = ground (arith, +ℤ_parts now d, +ℤ_parts now hi)

-- The silence of a feed only postpones its check, and not beyond the maximal interval.
pub silent_next_check_bounds :
    (r : Settings) (feed : Timing) (now next : Time)
    → (next ≤ℤ (silent_next_check r feed now next).0)
      × ((silent_next_check r feed now next).0 ≤ℤ max_ℤ next (now +ℤ poll_max r))
unfolding silent_next_check
silent_next_check_bounds r feed now next =
    let hi : Duration = poll_max r in
    let d : Duration =
      if ltb_ℤ (pos 0) hi && ltb_ℤ hi r.silent_interval then hi else r.silent_interval in
    elim (Bool-cases (leb_ℤ r.silent_after (pos 0) || leb_ℤ r.silent_interval (pos 0))) [
      | inl off ↦ rw off (max_ℤ-bounds next (now +ℤ hi))
      | inr on ↦
          rw on
            (elim (Bool-cases
              (is_zero (last_item feed) || ltb_ℤ (now -ℤ last_item feed) r.silent_after)) [
                | inl active ↦ rw active (max_ℤ-bounds next (now +ℤ hi))
                | inr silent ↦ rw silent (
                    postponed-bounds now next d hi
                      (capped-le hi r.silent_interval (poll_max_pos r)))
              ])
    ]

-- ===== src/Poll/Schedule/Adaptive.antt =====
-- The stretched interval of feeds that publish rarely.
use Prim.Native.Nat.{min}
use native.Mathlib.Nat.{pow-suc}
use rssam.Common.{
  ℕ, zero, suc, ◌*◌, ◌^◌, ◌≤◌, ◌<◌, ◌≡◌, refl, arith, if◌then◌else◌, Bool-cases, inl, inr,
}
use rssam.Common.Int.{ℤ, pos, pos_part, div_ℤ, ◌≤ℤ◌, ◌<ℤ◌, max_ℤ, ltb_ℤ, wrap64-pos}
use rssam.Poll.Schedule.{
  Duration, adaptive_poll_window, clamp_poll_duration, double_while_below, silent_rounds,
  adaptive_poll_interval,
}
use rssam.Poll.Schedule.Backoff.{clamp_bounds, pos-*ℤ, le-mul-pow}

-- With a positive base interval, the stretched interval is never below the base, and never above
-- the larger of the base, the adaptive maximum and the instance's maximum.
pub adaptive_poll_interval_bounds :
    (base : Duration) (weekly_items : ℤ) (silent_for hi hard_max : Duration)
    → pos 0 <ℤ base
    → (base ≤ℤ adaptive_poll_interval base weekly_items silent_for hi hard_max)
      × (adaptive_poll_interval base weekly_items silent_for hi hard_max
          ≤ℤ max_ℤ base (max_ℤ hi hard_max))
unfolding adaptive_poll_interval
adaptive_poll_interval_bounds base weekly_items silent_for hi hard_max h =
    let hard : Duration = if ltb_ℤ hard_max hi then hi else hard_max in
    ground (
      arith,
      clamp_bounds (div_ℤ (div_ℤ (pos adaptive_poll_window) (pos_part weekly_items)) 2) base hi h,
      clamp_bounds (double_while_below (silent_rounds silent_for) hi hard) base hard h,
    )

-- `d` and the result are below 2 ^ 63, so no doubling wraps.
double_while_below-eq-min :
    (rounds d hard : ℕ)
    → hard ≤ 2 ^ 62
    → 0 < d
    → (r : ℕ) × (double_while_below rounds (pos d) (pos hard) ≡ pos r)
      × (min r hard ≡ min (d * 2 ^ rounds) hard)
      × (d ≤ r)
unfolding double_while_below
double_while_below-eq-min zero d hard h k = (d, refl, omega arith, omega arith)
double_while_below-eq-min (suc n) d hard h k = elim (Bool-cases (ltb_ℤ (pos d) (pos hard))) [
  | inl below ↦
      rw (below, pos-*ℤ, wrap64-pos (d * 2) (ground arith))
        (let (r, same, capped, above) = double_while_below-eq-min n (d * 2) hard h (omega arith) in
          (r, same, rw pow-suc (omega (arith, capped)), omega arith))
  | inr reached ↦ rw reached (d, refl, ground (arith, le-mul-pow d (suc n)), omega arith)
]

-- After a week of silence the adaptive maximum is doubled once for each further whole week, capped
-- by the instance's maximum; this for a base below the adaptive maximum, an adaptive maximum of at
-- most the instance's, and an instance's maximum of at most 2 ^ 62 nanoseconds.
pub adaptive_poll_interval_silent :
    (base hi hard : ℕ) (silent_for : Duration)
    → 0 < base
    → base < hi
    → hi ≤ hard
    → hard ≤ 2 ^ 62
    → adaptive_poll_interval (pos base) (pos 0) silent_for (pos hi) (pos hard)
      ≡ pos (min (hi * 2 ^ silent_rounds silent_for) hard)
unfolding adaptive_poll_interval clamp_poll_duration
adaptive_poll_interval_silent base hi hard silent_for h k l m =
    let (r, same, capped, above) =
      double_while_below-eq-min (silent_rounds silent_for) hi hard m (omega arith) in
    ground (arith, same, capped, above)

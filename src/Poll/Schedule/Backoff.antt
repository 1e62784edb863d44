-- ===== src/Poll/Schedule/Backoff.antt =====
-- The waiting time of a feed after failed polls.
use Prim.Native.Nat.{min}
use native.Mathlib.Nat.{one-le-pow}
use rssam.Common.{ℕ, ◌*◌, ◌^◌, ◌≤◌, ◌<◌, ◌%◌, ◌≡◌, refl, ◌∙◌, arith}
use rssam.Common.Int.{ℤ, pos, ◌*ℤ◌, ◌≤ℤ◌, ◌<ℤ◌, wrap64, wrap64-pos}
use rssam.Poll.Schedule.{
  Duration, clamp_poll_duration, feed_base_poll_interval, feed_error_poll_delay, backoff_shift,
}

-- With bounds in order, the result is within them whatever was computed before.
pub clamp_bounds :
    (d lo hi : Duration)
    → pos 0 <ℤ lo
    → lo ≤ℤ hi
    → (lo ≤ℤ clamp_poll_duration d lo hi) × (clamp_poll_duration d lo hi ≤ℤ hi)
unfolding clamp_poll_duration
clamp_bounds d lo hi p q = ground arith

pub clamp_above :
    (d lo hi : ℕ) → lo ≤ d → 0 < hi → clamp_poll_duration (pos d) (pos lo) (pos hi) ≡ pos (min d hi)
unfolding clamp_poll_duration
clamp_above d lo hi h k = ground arith

pub pos-*ℤ : (a b : ℕ) → pos a *ℤ pos b ≡ pos (a * b)
unfolding ◌*ℤ◌
pos-*ℤ a b = ground arith

-- The base interval of a feed lies within the bounds.
pub feed_base_poll_interval_bounds :
    (interval : ℤ) (lo hi : Duration)
    → pos 0 <ℤ lo
    → lo ≤ℤ hi
    → (lo ≤ℤ feed_base_poll_interval interval lo hi)
      × (feed_base_poll_interval interval lo hi ≤ℤ hi)
unfolding feed_base_poll_interval
feed_base_poll_interval_bounds interval lo hi p q = clamp_bounds _ lo hi p q

wrapped_negative :
    (n lo hi : ℕ)
    → 2 ^ 63 ≤ n % 2 ^ 64
    → 0 < lo
    → clamp_poll_duration (wrap64 (pos n)) (pos lo) (pos hi) ≡ pos lo
unfolding clamp_poll_duration wrap64
wrapped_negative n lo hi h k = ground arith

pub le-mul-pow : (b k : ℕ) → b ≤ b * 2 ^ k
le-mul-pow b k = grind (arith, one-le-pow k 2)

module _ (interval error_count : ℤ) (lo b hi : ℕ)
    (base : feed_base_poll_interval interval (pos lo) (pos hi) ≡ pos b) where
  delay_from_base :
      (k : ℕ)
      → backoff_shift error_count ≡ k
      → feed_error_poll_delay interval error_count (pos lo) (pos hi)
        ≡ clamp_poll_duration (wrap64 (pos (b * 2 ^ k))) (pos lo) (pos hi)
  unfolding feed_error_poll_delay
  delay_from_base k e = rw (base, e, pos-*ℤ)

  -- If the product of the base interval and 2 to the number of errors (at least 1 and at most 30)
  -- fits in an `int64`, the delay after errors is that product, capped by the maximum.
  pub feed_error_poll_delay-eq-doubling :
      lo ≤ b
      → 0 < hi
      → b * 2 ^ backoff_shift error_count < 2 ^ 63
      → feed_error_poll_delay interval error_count (pos lo) (pos hi)
        ≡ pos (min (b * 2 ^ backoff_shift error_count) hi)
  feed_error_poll_delay-eq-doubling above hi_pos fits =
      delay_from_base _ refl
      ∙ (rw (wrap64-pos _ fits)
          (clamp_above _ lo hi (omega (arith, le-mul-pow b (backoff_shift error_count))) hi_pos))

  -- If that product has the sign bit of an `int64` set, the delay after errors is the minimum
  -- interval, the shortest one, and not the maximum.
  pub feed_error_poll_delay-overflow :
      0 < lo
      → 2 ^ 63 ≤ (b * 2 ^ backoff_shift error_count) % 2 ^ 64
      → feed_error_poll_delay interval error_count (pos lo) (pos hi) ≡ pos lo
  feed_error_poll_delay-overflow lo_pos big =
      delay_from_base _ refl ∙ wrapped_negative _ lo hi big lo_pos

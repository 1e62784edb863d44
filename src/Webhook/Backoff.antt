-- ===== src/Webhook/Backoff.antt =====
-- internal/worker/webhooks.go: when a failed delivery is tried again. The random number of the
-- jitter is an argument.
pub mod Laws
use rssam.Common.{
  ℕ, zero, suc, ◌+◌, ◌-◌, ◌*◌, ◌/◌, ◌%◌, Bool, true, false, ◌&&◌, ◌||◌, Option, none, some,
  if◌then◌else◌, ltb, ◌==◌,
}
use rssam.Common.Int.{ℤ, pos, negsuc, pos_part, ◌+ℤ◌, ◌*ℤ◌, ltb_ℤ, leb_ℤ, eq_ℤ, wrap64, div_ℤ}
use rssam.Poll.Schedule.{Duration, Time, second, minute, hour}

-- The loop `for i := 1; i < attempt; i++`, on the rounds left. The two ways out of the loop are the
-- top and the end of the rounds.
unfoldable pub double_to : ℕ → Duration → Duration → Duration
double_to zero d top = d
double_to (suc rounds) d top =
    let more = double_to rounds (wrap64 (d *ℤ pos 2)) top in
    if ltb_ℤ (div_ℤ top 2) d && ltb_ℤ (pos 0) top then top else more

-- `attempt` and `base` after their corrections.
abbrev pub rounds_of : ℤ → ℕ
rounds_of attempt = pos_part (if leb_ℤ attempt (pos 0) then pos 1 else attempt) - 1

abbrev pub base_or_second : Duration → Duration
base_or_second base = if leb_ℤ base (pos 0) then pos second else base

-- The delay before the jitter.
unfoldable pub webhook_backoff : ℤ → Duration → Duration → Duration
webhook_backoff attempt base top =
    let d = double_to (rounds_of attempt) (base_or_second base) top in
    if ltb_ℤ (pos 0) top && ltb_ℤ top d then top else d

-- `rand.Int64N(half)` is a number below `half`; `random` is any number.
unfoldable pub with_jitter : ℕ → Duration → Duration
with_jitter random d =
    let half = div_ℤ d 2 in
    if leb_ℤ half (pos 0) then d else wrap64 (d +ℤ pos (random % pos_part half))

unfoldable pub webhook_backoff_with_jitter : ℕ → ℤ → Duration → Duration → Duration
webhook_backoff_with_jitter random attempt base top =
    with_jitter random (webhook_backoff attempt base top)

-- The settings of the worker that the deliveries depend on.
pub record Settings : Type 0 where
  pub webhook_max_attempts : ℤ
  pub webhook_retry_base : Duration
  pub webhook_retry_max : Duration
  pub dedup_only_storage : Bool

abbrev pub max_attempts : Settings → ℤ
max_attempts cfg =
    if leb_ℤ cfg.webhook_max_attempts (pos 0) then pos 10 else cfg.webhook_max_attempts

abbrev pub retry_base : Settings → Duration
retry_base cfg =
    if leb_ℤ cfg.webhook_retry_base (pos 0) then pos (5 * second) else cfg.webhook_retry_base

abbrev pub retry_max : Settings → Duration
retry_max cfg = if leb_ℤ cfg.webhook_retry_max (pos 0) then pos hour else cfg.webhook_retry_max

-- The next attempt, and whether the row is dead.
unfoldable pub webhook_retry_schedule : Settings → ℕ → Time → ℤ → Option Time × Bool
webhook_retry_schedule cfg random now attempt =
    if leb_ℤ (max_attempts cfg) attempt then (none, true) else (
      some (now +ℤ webhook_backoff_with_jitter random attempt (retry_base cfg) (retry_max cfg)),
      false,
    )

-- `webhookHTTPRetryable`
unfoldable pub webhook_http_retryable : ℤ → Bool
webhook_http_retryable status =
    if eq_ℤ status (pos 408) || eq_ℤ status (pos 429) then true else leb_ℤ (pos 500) status

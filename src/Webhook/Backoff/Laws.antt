-- ===== src/Webhook/Backoff/Laws.antt =====
-- The delays between the attempts of a delivery.
use Prim.Native.Nat.{min}
use native.Mathlib.Nat.{pow-suc}
use rssam.Common.{
  ℕ, zero, suc, ◌+◌, ◌*◌, ◌^◌, ◌/◌, ◌≤◌, ◌<◌, ◌≡◌, refl, ap, ◌∙◌, Bool, true, false, ◌&&◌, Option,
  none, some, arith, if◌then◌else◌, Bool-cases, inl, inr, ◌%◌,
}
use rssam.Common.Int.{ℤ, pos, ◌+ℤ◌, ◌≤ℤ◌, ltb_ℤ, leb_ℤ, div_ℤ, wrap64, wrap64-pos, int_laws}
use rssam.Poll.Schedule.{Time}
use rssam.Poll.Schedule.Backoff.{pos-*ℤ, le-mul-pow}
use rssam.Webhook.Backoff.{
  double_to, rounds_of, base_or_second, webhook_backoff, with_jitter, webhook_backoff_with_jitter,
  Settings, max_attempts, retry_base, retry_max, webhook_retry_schedule,
}

-- With a positive top below 2 ^ 62 no doubling wraps.
double_to-eq-min :
    (rounds d top : ℕ)
    → 0 < d
    → d ≤ top
    → top < 2 ^ 63
    → double_to rounds (pos d) (pos top) ≡ pos (min (d * 2 ^ rounds) top)
unfolding double_to div_ℤ
double_to-eq-min zero d top h k l = ground arith
double_to-eq-min (suc n) d top h k l =
    elim (Bool-cases (ltb_ℤ (div_ℤ (pos top) 2) (pos d) && ltb_ℤ (pos 0) (pos top))) [
      | inl beyond ↦ rw (beyond, pow-suc) (ground (arith, le-mul-pow (d * 2) n))
      | inr below ↦
          rw (below, pos-*ℤ, wrap64-pos (d * 2) (ground arith))
            (double_to-eq-min n (d * 2) top (omega arith) (ground arith) l
              ∙ ap (λ (m : ℕ). pos (min m top)) (rw pow-suc (omega arith)))
    ]

base_given : (base : ℕ) → 0 < base → base_or_second (pos base) ≡ pos base
base_given base h = ground arith

capped_again :
    (n top : ℕ)
    → (if ltb_ℤ (pos 0) (pos top) && ltb_ℤ (pos top) (pos (min n top))
        then pos top
        else pos (min n top))
      ≡ pos (min n top)
capped_again n top = ground arith

-- For a positive base of at most the top, and a top that is a `time.Duration`, the delay of an
-- attempt before the jitter is the base doubled for each attempt after the first, capped.
pub webhook_backoff-eq-doubling :
    (attempt : ℤ) (base top : ℕ)
    → 0 < base
    → base ≤ top
    → top < 2 ^ 63
    → webhook_backoff attempt (pos base) (pos top) ≡ pos (min (base * 2 ^ rounds_of attempt) top)
unfolding webhook_backoff
webhook_backoff-eq-doubling attempt base top h k l =
    rw (base_given base h, double_to-eq-min (rounds_of attempt) base top h k l)
      (capped_again (base * 2 ^ rounds_of attempt) top)

sum-pos : (a b : ℕ) → pos a +ℤ pos b ≡ pos (a + b)
sum-pos a b = omega int_laws

-- The sum with the jitter does not wrap where one and a half times the delay fits.
jitter_sum :
    (random d : ℕ)
    → leb_ℤ (div_ℤ (pos d) 2) (pos 0) ≡ false
    → d + d / 2 < 2 ^ 63
    → wrap64 (pos d +ℤ pos (random % (d / 2))) ≡ pos (d + random % (d / 2))
unfolding div_ℤ
jitter_sum random d long h = rw sum-pos (wrap64-pos (d + random % (d / 2)) (ground arith))

with_jitter_bounds :
    (random d : ℕ)
    → d + d / 2 < 2 ^ 63
    → (pos d ≤ℤ with_jitter random (pos d)) × (with_jitter random (pos d) ≤ℤ pos (d + d / 2))
unfolding with_jitter div_ℤ
with_jitter_bounds random d h = elim (Bool-cases (leb_ℤ (div_ℤ (pos d) 2) (pos 0))) [
  | inl short ↦ rw short (ground arith)
  | inr long ↦ rw (long, jitter_sum random d long h) (ground arith)
]

delay_bounds :
    (random : ℕ) (attempt : ℤ) (base top : ℕ)
    → 0 < base
    → base ≤ top
    → top + top / 2 < 2 ^ 63
    → (pos base ≤ℤ webhook_backoff_with_jitter random attempt (pos base) (pos top))
      × (webhook_backoff_with_jitter random attempt (pos base) (pos top) ≤ℤ pos (top + top / 2))
unfolding webhook_backoff_with_jitter
delay_bounds random attempt base top h k l =
    rw (webhook_backoff-eq-doubling attempt base top h k (omega arith)) (
      omega (
        arith,
        with_jitter_bounds random (min (base * 2 ^ rounds_of attempt) top) (omega arith),
        le-mul-pow base (rounds_of attempt),
      ))

retry_base_given :
    (cfg : Settings) (base : ℕ)
    → cfg.webhook_retry_base ≡ pos base
    → 0 < base
    → retry_base cfg ≡ pos base
retry_base_given cfg base e h = ground arith

retry_max_given :
    (cfg : Settings) (top : ℕ) → cfg.webhook_retry_max ≡ pos top → 0 < top → retry_max cfg ≡ pos top
retry_max_given cfg top e h = ground arith

-- A dead row has no next attempt, and any other has one within the bounds.
abbrev pub IsNext : Time → ℕ → ℕ → Option Time × Bool → Type 0
IsNext now base top (none, dead) = dead ≡ true
IsNext now base top (some next, dead) =
    (dead ≡ false) × (now +ℤ pos base ≤ℤ next) × (next ≤ℤ now +ℤ pos (top + top / 2))

-- A failed delivery below the limit of attempts is tried again: not before the configured base has
-- passed, and at most one and a half times the configured maximum later. From the limit on the row
-- is dead. This for settings with a positive base of at most the maximum, and a maximum of which one
-- and a half times fits in an int64.
pub webhook_retry_schedule_lem :
    (cfg : Settings) (random : ℕ) (now : Time) (attempt : ℤ) (base top : ℕ)
    → cfg.webhook_retry_base ≡ pos base
    → cfg.webhook_retry_max ≡ pos top
    → 0 < base
    → base ≤ top
    → top + top / 2 < 2 ^ 63
    → ((webhook_retry_schedule cfg random now attempt).1 ≡ leb_ℤ (max_attempts cfg) attempt)
      × IsNext now base top (webhook_retry_schedule cfg random now attempt)
unfolding webhook_retry_schedule
webhook_retry_schedule_lem cfg random now attempt base top e f h k l =
    elim (Bool-cases (leb_ℤ (max_attempts cfg) attempt)) [
      | inl last ↦ rw last (refl, refl)
      | inr more ↦
          let bounds = delay_bounds random attempt base top h k l in
          rw (more, retry_base_given cfg base e h, retry_max_given cfg top f (omega arith))
            (refl, (refl, omega (int_laws, bounds), omega (int_laws, bounds)))
    ]

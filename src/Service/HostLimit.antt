-- ===== src/Service/HostLimit.antt =====
-- `HostLimiter` of internal/service/host_limit.go: how many polls may hit one host at a time, and
-- when a deferred poll comes back. A limiter is nil where no limit is set.
pub mod Laws
use rssam.Common.{
  ℕ, zero, suc, ◌+◌, ◌-◌, ◌*◌, ◌%◌, Bool, true, false, ◌||◌, Option, none, some, List, [], ◌∷◌,
  ◌++◌, ◌≡◌, null, if◌then◌else◌, leb,
}
use rssam.Common.Int.{ℤ, pos, pos_part, ◌+ℤ◌, leb_ℤ}
use rssam.Common.Text.{Text}
use rssam.Common.Maps.{text_key, find, insert, delete}
use rssam.Poll.Schedule.{Time, second, minute}

pub record HostLimiter : Type 0 where
  pub limit : ℕ
  pub busy : List (Text × ℕ)

unfoldable pub new_host_limiter : ℤ → Option HostLimiter
new_host_limiter limit =
    if leb_ℤ limit (pos 0) then none else some (record { limit = pos_part limit; busy = [] })

-- A missing key reads as 0.
abbrev pub or_zero : Option ℕ → ℕ
or_zero none = 0
or_zero (some n) = n

abbrev pub count : Text → HostLimiter → ℕ
count host l = or_zero (find host l.busy)

-- `Acquire` of a limiter that is not nil: the limiter after it, whether the slot is granted, and
-- whether `release` gives something back.
unfoldable pub acquire : Text → HostLimiter → HostLimiter × Bool
acquire host l =
    if null host
    then (l, true)
    else if leb l.limit (count host l)
    then (l, false)
    else (record l { busy = insert host (count host l + 1) l.busy }, true)

-- The function that `Acquire` returns; for an unknown host it does nothing.
unfoldable pub release : Text → HostLimiter → HostLimiter
release host l =
    if null host
    then l
    else if leb (count host l) 1
    then record l { busy = delete host l.busy }
    else record l { busy = insert host (count host l - 1) l.busy }

unfoldable pub host_busy_retry : Time → ℕ → Time
host_busy_retry now feed_id = now +ℤ pos (minute + feed_id % 31 * second)

-- The limiter, and the hosts of the background polls that were granted a slot and still run.
pub record Polls : Type 0 where
  pub limiter : HostLimiter
  pub running : List Text

-- `Acquire` at the start of a poll: the poll runs if it is granted the slot.
abbrev pub begin_poll : Text → Polls → Polls
begin_poll host p =
    let (limiter, granted) = acquire host p.limiter in
    record { limiter = limiter; running = if granted then host ∷ p.running else p.running }

-- The polls interleave: one begins, or one of those that run ends, with its deferred `release()`.
pub data Step : Polls → Polls → Type 0 where
  begins : {p : Polls} (host : Text) → Step p (begin_poll host p)
  ends :
      {p : Polls} (before : List Text) (host : Text) (after : List Text)
      → p.running ≡ before ++ host ∷ after
      → Step p (record { limiter = release host p.limiter; running = before ++ after })

pub data Reach (start : Polls) : Polls → Type 0 where
  here : Reach start start
  then_step : {p q : Polls} → Reach start p → Step p q → Reach start q

-- A limiter of which no slot is taken.
abbrev pub idle : ℕ → Polls
idle limit = record { limiter = record { limit = limit; busy = [] }; running = [] }

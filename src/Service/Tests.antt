-- ===== src/Service/Tests.antt =====
-- Runs of the caches and limits of the refresh, and the theorems applied to them.
use rssam.Common.{ℕ, ◌*◌, ◌≤◌, ◌≡◌, refl, false, none, some, [], ◌∷◌}
use rssam.Common.Int.{pos, ◌+ℤ◌, ◌-ℤ◌}
use rssam.Common.Text.{Text, codes, times}
use rssam.Common.Maps.{int_key, text_key, find, insert, delete}
use rssam.Poll.Schedule.{second}
use rssam.Service.TtlCache.{TtlCache, get, put, invalidate}
use rssam.Service.HostLimit.{
  new_host_limiter, count, acquire, release, Polls, begin_poll, begins, ends, Reach, here,
  then_step, idle, host_busy_retry,
}
use rssam.Service.HostLimit.Laws.{times-running}

service : Unit {0}
unfolding get put invalidate new_host_limiter acquire release host_busy_retry find insert delete
    ◌+ℤ◌ ◌-ℤ◌
service = tt

abbrev cache : TtlCache ℕ
cache = (pos 5, record { at = pos 100; val = 77 }) ∷ []

cache_runs :
    ((get (pos 5) (pos 30) (pos 129) cache).1 ≡ some 77)
    × (get (pos 5) (pos 30) (pos 130) cache ≡ ([], none))
    × ((get (pos 5) (pos 30) (pos 110) (invalidate (pos 0) cache)).1 ≡ none)
    × ((get (pos 6) (pos 30) (pos 110) (put (pos 6) 8 (pos 100) cache)).1 ≡ some 8)
unfolding service
cache_runs = (refl, refl, refl, refl)

abbrev host : Text
host = codes "t.me"

-- Two polls of the host run, a third is refused, and then the first ends.
abbrev full : Polls
full = begin_poll host (begin_poll host (begin_poll host (idle 2)))

abbrev ended : Polls
ended = record { limiter = release host full.limiter; running = host ∷ [] }

host_runs :
    (count host full.limiter ≡ 2)
    × (full.running ≡ host ∷ host ∷ [])
    × (count host ended.limiter ≡ 1)
    × (new_host_limiter (pos 0) ≡ none)
    × ((acquire host (record { limit = 1; busy = (host, 1) ∷ [] })).1 ≡ false)
    × (host_busy_retry (pos 0) 33 ≡ pos (62 * second))
unfolding service
host_runs = (refl, refl, refl, refl, refl, refl)

ended-Reach : Reach (idle 2) ended
unfolding service
ended-Reach =
    then_step (then_step (then_step (then_step here (begins host)) (begins host)) (begins host))
      (ends [] host (host ∷ []) refl)

times-running_example : times host ended.running ≤ 2
times-running_example = times-running 2 ended host ended-Reach refl

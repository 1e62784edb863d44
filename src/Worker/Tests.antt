-- ===== src/Worker/Tests.antt =====
-- Runs of the sets of the worker, and the theorems applied to them.
use rssam.Common.{ℕ, ◌≡◌, refl, true, false, none, some, List, [], ◌∷◌, All}
use rssam.Common.Int.{pos, ◌-ℤ◌}
use rssam.Common.Maps.{id_key, find, insert, delete, IsMap}
use rssam.Worker.Inflight.{
  InflightPolls, init, start, done, forget, exclude, exclude_loop, counts, counts_loop, since,
  is_stale, past_grace, Call, start_call, done_call, forget_call, exclude_call, after_call,
  after_calls,
}
use rssam.Worker.Inflight.Exclusion.{mentions, Leaves, exclude-start, exclude-done}
use rssam.Worker.Pauses.{DuePauses, pause, active, paused_until}

worker : Unit {0}
unfolding init start done forget exclude exclude_loop counts counts_loop since after_call
    after_calls pause active paused_until find insert delete ◌-ℤ◌
worker = tt

-- Item 1 has run since 100 and item 2 was done at 105; stale after 50, a grace of 10.
abbrev polls : InflightPolls
polls = record {
  polls =
      (1, record { started_at = pos 100; done_at = pos 0 })
      ∷ (2, record { started_at = pos 90; done_at = pos 105 })
      ∷ [];
  stale_after = pos 50;
  finished_grace = pos 10;
}

polls-IsMap : IsMap polls.polls
unfolding worker
polls-IsMap = (refl, (refl, tt))

polls_runs :
    ((exclude (pos 110) polls).1 ≡ 1 ∷ 2 ∷ [])
    × ((exclude (pos 120) polls).1 ≡ 1 ∷ [])
    × ((exclude (pos 150) polls).1 ≡ [])
    × (counts (pos 150) polls ≡ (1, 1))
    × (since 1 polls ≡ some (pos 100))
    × (since 2 polls ≡ none)
    × ((exclude (pos 150) (forget 1 polls)).0.polls ≡ [])
unfolding worker
polls_runs = (refl, refl, refl, refl, refl, refl, refl)

abbrev calls : List Call
calls = done_call 1 (pos 130) ∷ exclude_call (pos 140) ∷ forget_call 2 ∷ []

calls_leave : All (Leaves polls 3 (record { started_at = pos 120; done_at = pos 0 })) calls
calls_leave = (refl, (refl, (refl, tt)))

not_stale : is_stale (pos 50) (pos 160) (record { started_at = pos 120; done_at = pos 0 }) ≡ false
unfolding worker
not_stale = refl

in_grace :
    past_grace (pos 10) (pos 129) (record { started_at = pos 100; done_at = pos 120 }) ≡ false
unfolding worker
in_grace = refl

running : find 1 polls.polls ≡ some (record { started_at = pos 100; done_at = pos 0 })
unfolding worker
running = refl

exclude-start_example :
    mentions 3 (exclude (pos 160) (after_calls calls (start 3 (pos 120) polls))).1 ≡ true
exclude-start_example =
    exclude-start polls 3 (pos 120) (pos 160) calls polls-IsMap calls_leave not_stale

abbrev later_calls : List Call
later_calls = start_call 4 (pos 121) ∷ exclude_call (pos 125) ∷ forget_call 2 ∷ []

later_calls_leave :
    All (Leaves polls 1 (record { started_at = pos 100; done_at = pos 120 })) later_calls
unfolding worker
later_calls_leave = (refl, (refl, (refl, tt)))

exclude-done_example :
    mentions 1 (exclude (pos 129) (after_calls later_calls (done 1 (pos 120) polls))).1 ≡ true
exclude-done_example =
    exclude-done polls 1 (pos 100) (pos 120) (pos 129) later_calls polls-IsMap running refl
      later_calls_leave in_grace

-- Webhook 7 waits until 40, webhook 8 until 30.
abbrev pauses : DuePauses ℕ
pauses = (7, pos 40) ∷ (8, pos 30) ∷ []

pauses_runs :
    (active (pos 20) pauses ≡ (pauses, 7 ∷ 8 ∷ [], some (pos 30)))
    × (active (pos 30) pauses ≡ ((7, pos 40) ∷ [], 7 ∷ [], some (pos 40)))
    × (paused_until 8 (pos 20) (pause 8 (pos 25) pauses) ≡ some (pos 30))
    × (paused_until 8 (pos 20) (pause 8 (pos 35) pauses) ≡ some (pos 35))
unfolding worker
pauses_runs = (refl, refl, refl, refl)

-- ===== src/Worker/Inflight/Exclusion.antt =====
-- An item that is worked on is not given out again.
use rssam.Common.{
  ℕ, ◌≡◌, refl, sym, ◌∙◌, Bool, true, false, not, ◌&&◌, Option, none, some, List, [], ◌∷◌, any, All,
  arith, if◌then◌else◌, ◌==◌, ==_iff, Bool-cases, inl, inr,
}
use rssam.Common.Int.{pos}
use rssam.Common.Maps.{
  id_key, find, keep, IsMap, find-insert, find-delete, find-keep, insert-IsMap, delete-IsMap,
  keep-IsMap,
}
use rssam.Poll.Schedule.{Duration, Time}
use rssam.Poll.NextCheck.{is_zero}
use rssam.Worker.Inflight.{
  InflightPoll, InflightPolls, start, done, finished, forget, exclude, exclude_loop, past_grace,
  is_stale, Call, start_call, done_call, forget_call, exclude_call, after_call, after_calls,
}

abbrev pub mentions : ℕ → List ℕ → Bool
mentions id out = any (λ j. j == id) out

-- A finished entry past its grace, which `exclude` forgets.
abbrev pub is_over : Duration → Time → InflightPoll → Bool
is_over finished_grace now e = not (is_zero e.done_at) && past_grace finished_grace now e

-- What keeps an item from being claimed: a finished poll within its grace, or a running one that is
-- not stale.
abbrev pub is_busy : InflightPolls → Time → Option InflightPoll → Bool
is_busy p now none = false
is_busy p now (some e) =
    if not (is_zero e.done_at)
    then not (past_grace p.finished_grace now e)
    else not (is_stale p.stale_after now e)

pub exclude_loop-keep :
    (stale_after finished_grace : Duration) (now : Time) (m : List (ℕ × InflightPoll))
    → (exclude_loop stale_after finished_grace now m).0
      ≡ keep (λ id e. not (is_over finished_grace now e)) m
unfolding exclude_loop keep
exclude_loop-keep stale_after finished_grace now [] = refl
exclude_loop-keep stale_after finished_grace now ((id, e) ∷ m) =
    ground (arith, exclude_loop-keep stale_after finished_grace now m)

exclude_loop-mentions :
    (p : InflightPolls) (now : Time) (id : ℕ) (m : List (ℕ × InflightPoll))
    → IsMap m
    → mentions id (exclude_loop p.stale_after p.finished_grace now m).1 ≡ is_busy p now (find id m)
unfolding exclude_loop find
exclude_loop-mentions p now id [] h = refl
exclude_loop-mentions p now id ((j, e) ∷ m) h =
    ground (arith, exclude_loop-mentions p now id m h.1, ==_iff j id, h.0)

-- The ids that `exclude` returns are exactly those of the finished polls within their grace and of
-- the running polls that are not stale.
pub mentions-exclude :
    (p : InflightPolls) (now : Time) (id : ℕ)
    → IsMap p.polls
    → mentions id (exclude now p).1 ≡ is_busy p now (find id p.polls)
unfolding exclude
mentions-exclude p now id h = exclude_loop-mentions p now id p.polls h

-- Calls that leave the item alone: they name other ids, or forget polls before its grace has passed.
abbrev pub Leaves : InflightPolls → ℕ → InflightPoll → Call → Type 0
Leaves p id e (start_call j at) = (j == id) ≡ false
Leaves p id e (done_call j at) = (j == id) ≡ false
Leaves p id e (forget_call j) = (j == id) ≡ false
Leaves p id e (exclude_call now) = is_over p.finished_grace now e ≡ false

after_call-grace :
    (c : Call) (p : InflightPolls) → (after_call c p).finished_grace ≡ p.finished_grace
unfolding after_call start done forget exclude
after_call-grace c p = ground arith

pub after_call-stale : (c : Call) (p : InflightPolls) → (after_call c p).stale_after ≡ p.stale_after
unfolding after_call start done forget exclude
after_call-stale c p = ground arith

finished-IsMap :
    (id : ℕ) (at : Time) (o : Option InflightPoll) (m : List (ℕ × InflightPoll))
    → IsMap m
    → IsMap (finished id at o m)
finished-IsMap id at none m h = h
finished-IsMap id at (some e) m h = elim (Bool-cases (is_zero e.done_at)) [
  | inl running ↦ rw running (insert-IsMap id (record e { done_at = at }) m h)
  | inr over ↦ rw over h
]

pub after_call-IsMap : (c : Call) (p : InflightPolls) → IsMap p.polls → IsMap (after_call c p).polls
unfolding after_call start done forget exclude
after_call-IsMap (start_call j at) p h = insert-IsMap j _ p.polls h
after_call-IsMap (done_call j at) p h = finished-IsMap j at (find j p.polls) p.polls h
after_call-IsMap (forget_call j) p h = delete-IsMap j p.polls h
after_call-IsMap (exclude_call now) p h =
    rw (exclude_loop-keep p.stale_after p.finished_grace now p.polls) (keep-IsMap _ p.polls h)

pub find-finished :
    (id j : ℕ) (at : Time) (o : Option InflightPoll) (m : List (ℕ × InflightPoll))
    → (j == id) ≡ false
    → find id (finished j at o m) ≡ find id m
find-finished id j at none m h = refl
find-finished id j at (some e) m h = ground (arith, find-insert j id (record e { done_at = at }) m)

find-after_call :
    (p : InflightPolls) (id : ℕ) (e : InflightPoll) (c : Call)
    → IsMap p.polls
    → find id p.polls ≡ some e
    → Leaves p id e c
    → find id (after_call c p).polls ≡ some e
unfolding after_call start done forget exclude
find-after_call p id e (start_call j at) h there leaves =
    ground (arith, find-insert j id (record { started_at = at; done_at = pos 0 }) p.polls)
find-after_call p id e (done_call j at) h there leaves =
    rw (find-finished id j at (find j p.polls) p.polls leaves) there
find-after_call p id e (forget_call j) h there leaves = ground (arith, find-delete j id p.polls)
find-after_call p id e (exclude_call now) h there leaves = rw (
  exclude_loop-keep p.stale_after p.finished_grace now p.polls,
  find-keep (λ i f. not (is_over p.finished_grace now f)) id p.polls h,
  there,
  leaves,
)

Leaves-after_call :
    (p q : InflightPolls) (id : ℕ) (e : InflightPoll) (c : Call)
    → p.finished_grace ≡ q.finished_grace
    → Leaves p id e c
    → Leaves q id e c
Leaves-after_call p q id e (start_call j at) same h = h
Leaves-after_call p q id e (done_call j at) same h = h
Leaves-after_call p q id e (forget_call j) same h = h
Leaves-after_call p q id e (exclude_call now) same h = rw (← same) h

-- While the calls leave an item alone, its entry stays, and so do the settings.
find-after_calls :
    (p q : InflightPolls) (id : ℕ) (e : InflightPoll) (cs : List Call)
    → p.finished_grace ≡ q.finished_grace
    → IsMap q.polls
    → find id q.polls ≡ some e
    → All (Leaves p id e) cs
    → IsMap (after_calls cs q).polls
      × (find id (after_calls cs q).polls ≡ some e)
      × ((after_calls cs q).finished_grace ≡ q.finished_grace)
      × ((after_calls cs q).stale_after ≡ q.stale_after)
unfolding after_calls
find-after_calls p q id e [] same h there leaves = (h, there, refl, refl)
find-after_calls p q id e (c ∷ cs) same h there leaves =
    let (still_map, still_there, grace, stale) =
      find-after_calls p (after_call c q) id e cs (same ∙ sym (after_call-grace c q))
        (after_call-IsMap c q h)
        (find-after_call q id e c h there (Leaves-after_call p q id e c same leaves.0)) leaves.1 in
    (still_map, still_there, grace ∙ after_call-grace c q, stale ∙ after_call-stale c q)

is_busy_running :
    (p q : InflightPolls) (now at : Time)
    → q.stale_after ≡ p.stale_after
    → is_stale p.stale_after now (record { started_at = at; done_at = pos 0 }) ≡ false
    → is_busy q now (some (record { started_at = at; done_at = pos 0 })) ≡ true
is_busy_running p q now at same fresh = rw same (ground arith)

is_busy_finished :
    (p q : InflightPolls) (now at started : Time)
    → q.finished_grace ≡ p.finished_grace
    → is_zero at ≡ false
    → past_grace p.finished_grace now (record { started_at = started; done_at = at }) ≡ false
    → is_busy q now (some (record { started_at = started; done_at = at })) ≡ true
is_busy_finished p q now at started same real soon = rw same (ground arith)

-- An item that is started is among those that `exclude` returns, as long as it is not stale, after
-- any calls that do not start, finish or forget it.
pub exclude-start :
    (p : InflightPolls) (id : ℕ) (at now : Time) (cs : List Call)
    → IsMap p.polls
    → All (Leaves p id (record { started_at = at; done_at = pos 0 })) cs
    → is_stale p.stale_after now (record { started_at = at; done_at = pos 0 }) ≡ false
    → mentions id (exclude now (after_calls cs (start id at p))).1 ≡ true
unfolding start
exclude-start p id at now cs h leaves fresh =
    let q : InflightPolls = start id at p in
    let e : InflightPoll = record { started_at = at; done_at = pos 0 } in
    let (still_map, still_there, grace, stale) =
      find-after_calls p q id e cs refl (insert-IsMap id e p.polls h)
        (ground (arith, find-insert id id e p.polls)) leaves in
    rw (mentions-exclude (after_calls cs q) now id still_map, still_there)
      (is_busy_running p (after_calls cs q) now at stale fresh)

-- An item that runs and is then finished at a moment other than the zero time is among those that
-- `exclude` returns for the grace period, after any calls that do not start, finish or forget it;
-- this for calls of `exclude` within the grace period.
pub exclude-done :
    (p : InflightPolls) (id : ℕ) (started at now : Time) (cs : List Call)
    → IsMap p.polls
    → find id p.polls ≡ some (record { started_at = started; done_at = pos 0 })
    → is_zero at ≡ false
    → All (Leaves p id (record { started_at = started; done_at = at })) cs
    → past_grace p.finished_grace now (record { started_at = started; done_at = at }) ≡ false
    → mentions id (exclude now (after_calls cs (done id at p))).1 ≡ true
unfolding done
exclude-done p id started at now cs h there real leaves soon =
    let q : InflightPolls = done id at p in
    let e : InflightPoll = record { started_at = started; done_at = at } in
    let (still_map, still_there, grace, stale) =
      find-after_calls p q id e cs refl (finished-IsMap id at (find id p.polls) p.polls h)
        (rw there (ground (arith, find-insert id id e p.polls))) leaves in
    rw (mentions-exclude (after_calls cs q) now id still_map, still_there)
      (is_busy_finished p (after_calls cs q) now at started grace real soon)

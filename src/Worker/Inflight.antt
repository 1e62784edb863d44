-- ===== src/Worker/Inflight.antt =====
-- internal/worker/inflight.go: the items that a worker is busy with. Each method holds the mutex for
-- its whole body, so it is one step; a sequence of steps stands for the calls of all goroutines.
pub mod Exclusion
use rssam.Common.{
  ℕ, zero, suc, ◌+◌, Bool, true, false, not, ◌&&◌, Option, none, some, List, [], ◌∷◌, if◌then◌else◌,
}
use rssam.Common.Int.{pos, ◌-ℤ◌, ltb_ℤ, leb_ℤ}
use rssam.Common.Maps.{id_key, find, insert, delete}
use rssam.Poll.Schedule.{Duration, Time}
use rssam.Poll.NextCheck.{is_zero}

-- `inflightPoll`; `done_at` is the zero time while the poll runs.
pub record InflightPoll : Type 0 where
  pub started_at : Time
  pub done_at : Time

-- `inflightPolls`
pub record InflightPolls : Type 0 where
  pub polls : List (ℕ × InflightPoll)
  pub stale_after : Duration
  pub finished_grace : Duration

unfoldable pub init : Duration → Duration → InflightPolls
init stale_after finished_grace = record {
  polls = [];
  stale_after = stale_after;
  finished_grace = finished_grace;
}

unfoldable pub start : ℕ → Time → InflightPolls → InflightPolls
start id at p = record p { polls = insert id (record { started_at = at; done_at = pos 0 }) p.polls }

-- The body of `done`, on the entry of the id.
abbrev pub finished :
    ℕ → Time → Option InflightPoll → List (ℕ × InflightPoll) → List (ℕ × InflightPoll)
finished id at none polls = polls
finished id at (some e) polls =
    if is_zero e.done_at then insert id (record e { done_at = at }) polls else polls

unfoldable pub done : ℕ → Time → InflightPolls → InflightPolls
done id at p = record p { polls = finished id at (find id p.polls) p.polls }

unfoldable pub forget : ℕ → InflightPolls → InflightPolls
forget id p = record p { polls = delete id p.polls }

-- The tests of `exclude` on an entry: a finished one past its grace, a running one that is stale.
abbrev pub past_grace : Duration → Time → InflightPoll → Bool
past_grace finished_grace now e = leb_ℤ finished_grace (now -ℤ e.done_at)

abbrev pub is_stale : Duration → Time → InflightPoll → Bool
is_stale stale_after now e = ltb_ℤ (pos 0) stale_after && leb_ℤ stale_after (now -ℤ e.started_at)

-- The loop of `exclude`: what it leaves in the map, and the ids it returns.
unfoldable pub exclude_loop :
    Duration → Duration → Time → List (ℕ × InflightPoll) → List (ℕ × InflightPoll) × List ℕ
exclude_loop stale_after finished_grace now [] = ([], [])
exclude_loop stale_after finished_grace now ((id, e) ∷ polls) =
    let (left, out) = exclude_loop stale_after finished_grace now polls in
    if not (is_zero e.done_at)
    then (if past_grace finished_grace now e then (left, out) else ((id, e) ∷ left, id ∷ out))
    else if is_stale stale_after now e
    then ((id, e) ∷ left, out)
    else ((id, e) ∷ left, id ∷ out)

unfoldable pub exclude : Time → InflightPolls → InflightPolls × List ℕ
exclude now p =
    let (left, out) = exclude_loop p.stale_after p.finished_grace now p.polls in
    (record p { polls = left }, out)

-- The loop of `counts`: how many run, and how many of those are stale.
unfoldable pub counts_loop : Duration → Time → List (ℕ × InflightPoll) → ℕ × ℕ
counts_loop stale_after now [] = (0, 0)
counts_loop stale_after now ((id, e) ∷ polls) =
    let (running, stale) = counts_loop stale_after now polls in
    if not (is_zero e.done_at)
    then (running, stale)
    else (suc running, if is_stale stale_after now e then suc stale else stale)

unfoldable pub counts : Time → InflightPolls → ℕ × ℕ
counts now p = counts_loop p.stale_after now p.polls

abbrev start_of : Option InflightPoll → Option Time
start_of none = none
start_of (some e) = if not (is_zero e.done_at) then none else some e.started_at

-- `since`; `none` is its `false`.
unfoldable pub since : ℕ → InflightPolls → Option Time
since id p = start_of (find id p.polls)

-- The calls that change the set.
pub data Call : Type 0 where
  start_call : ℕ → Time → Call
  done_call : ℕ → Time → Call
  forget_call : ℕ → Call
  exclude_call : Time → Call

unfoldable pub after_call : Call → InflightPolls → InflightPolls
after_call (start_call id at) p = start id at p
after_call (done_call id at) p = done id at p
after_call (forget_call id) p = forget id p
after_call (exclude_call now) p = (exclude now p).0

unfoldable pub after_calls : List Call → InflightPolls → InflightPolls
after_calls [] p = p
after_calls (c ∷ cs) p = after_calls cs (after_call c p)

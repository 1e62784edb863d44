-- ===== src/Worker/Pauses.antt =====
-- `duePauses` of internal/worker/webhook_flood.go: ids kept out of the due queries until a moment.
pub mod Laws
pub mod Lasting
use rssam.Common.{Bool, true, false, not, ◌||◌, Option, none, some, List, [], ◌∷◌, if◌then◌else◌}
use rssam.Common.Int.{pos, ltb_ℤ}
use rssam.Common.Maps.{Key, find, insert}
use rssam.Poll.Schedule.{Time}

-- `t.After(u)` and `t.Before(u)`.
abbrev pub after : Time → Time → Bool
after t u = ltb_ℤ u t

abbrev pub before : Time → Time → Bool
before t u = ltb_ℤ t u

-- A missing key reads as the zero time.
abbrev pub moment : Option Time → Time
moment none = pos 0
moment (some t) = t

-- The map `until`.
abbrev pub DuePauses {ℓ} : Type ℓ → Type ℓ
DuePauses K = List (K × Time)

-- `resume` and `ok` together: none while `ok` is false.
abbrev pub earlier : Time → Option Time → Option Time
earlier until none = some until
earlier until (some resume) = if before until resume then some until else some resume

abbrev pub still : Time → Option Time → Option Time
still now none = none
still now (some u) = if not (after u now) then none else some u

module _ {ℓ} {K : Type ℓ} where
  -- The loop of `active`: the map that is left, the ids, and the earliest moment.
  unfoldable pub active : Time → DuePauses K → DuePauses K × List K × Option Time
  active now [] = ([], [], none)
  active now ((id, until) ∷ p) =
      let (left, ids, resume) = active now p in
      if not (after until now)
      then (left, ids, resume)
      else ((id, until) ∷ left, id ∷ ids, earlier until resume)

module _ {ℓ} {K : Type ℓ} ⦃key : Key K⦄ where
  unfoldable pub pause : K → Time → DuePauses K → DuePauses K
  pause id until p = if after until (moment (find id p)) then insert id until p else p

  -- `pausedUntil`; `none` is its `false`.
  unfoldable pub paused_until : K → Time → DuePauses K → Option Time
  paused_until id now p = still now (find id p)

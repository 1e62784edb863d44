-- ===== src/Access/Laws.antt =====
-- The scopes and the quotas say what their comments promise.
use rssam.Common.{ℕ, ◌*◌, ◌≡◌, ◌↔◌, ◌⊎◌, refl, Bool, true, false, ◌||◌, arith, if◌then◌else◌}
use rssam.Common.Int.{pos, negsuc, ◌≤ℤ◌, leb_ℤ}
use rssam.Common.Text.{Text, codes, text_eq_iff}
use rssam.Poll.Schedule.{Duration, minute}
use rssam.Access.{
  is_safe_method, is_entry_state_path, scope_allows, Limits, floor_minutes, poll_interval,
}

-- A key with the scope read may do what one with the scope write may do by a safe method, and nothing
-- else; one with the scope write may besides only put the state of entries.
pub scope_allows-ordered :
    (method path : Text)
    → (scope_allows (codes "read") method path ≡ is_safe_method method)
      × ((scope_allows (codes "write") method path ≡ true) ↔ (
          (scope_allows (codes "read") method path ≡ true)
          ⊎ ((method ≡ codes "PUT") × (is_entry_state_path path ≡ true))))
      × (scope_allows (codes "admin") method path ≡ true)
unfolding scope_allows
scope_allows-ordered method path = (refl, ground (arith, text_eq_iff method (codes "PUT")), refl)

poll_interval-minimum :
    (d : Duration) (is_admin : Bool) (minutes : ℕ)
    → ((if leb_ℤ d (pos 0) || is_admin then true else leb_ℤ (pos (floor_minutes d)) (pos minutes))
        ≡ true)
      ↔ ((is_admin ≡ true) ⊎ (d ≤ℤ pos (minutes * minute)))
poll_interval-minimum (pos n) true minutes = ground arith
poll_interval-minimum (pos n) false minutes = ground arith
poll_interval-minimum (negsuc n) is_admin minutes = ground arith

-- An editor may set an interval exactly if it is not shorter than the editors' minimum, where one is
-- set; an admin may set any. This for intervals that are not negative.
pub poll_interval_iff :
    (l : Limits) (is_admin : Bool) (minutes : ℕ)
    → (poll_interval l is_admin (pos minutes) ≡ true)
      ↔ ((is_admin ≡ true) ⊎ (l.editor_min_poll_interval ≤ℤ pos (minutes * minute)))
unfolding poll_interval
poll_interval_iff l is_admin minutes =
    poll_interval-minimum l.editor_min_poll_interval is_admin minutes

-- ===== src/Access/Tests.antt =====
-- Requests of users, and the theorems applied to them.
use rssam.Common.{◌*◌, ◌≡◌, refl, true, false}
use rssam.Common.Int.{pos}
use rssam.Common.Text.{codes, has_prefix}
use rssam.Poll.Schedule.{second}
use rssam.Access.{
  role_rank, is_valid_role, role_at_least, is_safe_method, has_infix, has_suffix,
  is_entry_state_path, scope_allows, Limits, feeds, webhooks, poll_interval,
}

access : Unit {0}
unfolding role_at_least role_rank is_valid_role is_safe_method has_infix has_suffix
    is_entry_state_path scope_allows feeds webhooks poll_interval has_prefix
access = tt

abbrev limits : Limits
limits = record {
  max_feeds_per_editor = pos 10;
  max_webhooks_per_editor = pos 0;
  editor_min_poll_interval = pos (90 * second);
}

access_runs :
    (role_at_least (codes "editor") (codes "reader") ≡ true)
    × (role_at_least (codes "root") (codes "reader") ≡ false)
    × (scope_allows (codes "write") (codes "PUT") (codes "/v1/feeds/3/entries/9") ≡ true)
    × (scope_allows (codes "write") (codes "PUT") (codes "/v1/categories/3/mark-all-as-read")
        ≡ true)
    × (scope_allows (codes "write") (codes "PUT") (codes "/v1/feeds/3") ≡ false)
    × (scope_allows (codes "read") (codes "POST") (codes "/v1/entries") ≡ false)
    × (feeds limits false (pos 10) ≡ false)
    × (webhooks limits false (pos 99) ≡ true)
    × (poll_interval limits false (pos 1) ≡ false)
    × (poll_interval limits false (pos 2) ≡ true)
unfolding access
access_runs = (refl, refl, refl, refl, refl, refl, refl, refl, refl, refl)

-- ===== src/Access.antt =====
-- What a user may do: internal/auth/role.go, internal/auth/scope.go and internal/quota/quota.go.
pub mod Laws
pub mod Tests
use rssam.Common.{
  ℕ, zero, suc, ◌+◌, ◌*◌, ◌/◌, ◌%◌, Bool, true, false, not, ◌||◌, ◌&&◌, Option, none, some, List,
  [], ◌∷◌, length, drop, if◌then◌else◌, leb, ◌==◌,
}
use rssam.Common.Int.{ℤ, pos, ltb_ℤ, leb_ℤ}
use rssam.Common.Text.{Text, codes, text_eq, has_prefix}
use rssam.Poll.Schedule.{Duration, minute}
use mathlib.Core.List.{reverse}

-- `roleRank[role]`, 0 for an unknown role.
unfoldable pub role_rank : Text → ℕ
role_rank role =
    if text_eq role (codes "reader")
    then 1
    else if text_eq role (codes "editor")
    then 2
    else if text_eq role (codes "admin")
    then 3
    else 0

unfoldable pub is_valid_role : Text → Bool
is_valid_role role =
    text_eq role (codes "reader") || text_eq role (codes "editor") || text_eq role (codes "admin")

unfoldable pub role_at_least : Text → Text → Bool
role_at_least have want = is_valid_role have && leb (role_rank want) (role_rank have)

unfoldable pub is_safe_method : Text → Bool
is_safe_method method =
    text_eq method (codes "GET")
    || text_eq method (codes "HEAD")
    || text_eq method (codes "OPTIONS")

-- `strings.Contains(s, p)` and `strings.HasSuffix(s, p)`.
unfoldable pub has_infix : Text → Text → Bool
unfolding has_prefix
has_infix [] p = has_prefix [] p
has_infix (c ∷ s) p = has_prefix (c ∷ s) p || has_infix s p

unfoldable pub has_suffix : Text → Text → Bool
has_suffix s p = has_prefix (reverse s) (reverse p)

-- The paths of the read and starred state of entries.
unfoldable pub is_entry_state_path : Text → Bool
is_entry_state_path path =
    if text_eq path (codes "/v1/entries")
    then true
    else if has_prefix path (codes "/v1/feeds/")
        && has_infix (drop (length (codes "/v1/feeds/")) path) (codes "/entries/")
    then true
    else has_suffix path (codes "/mark-all-as-read")
      && (has_prefix path (codes "/v1/feeds/") || has_prefix path (codes "/v1/categories/"))

unfoldable pub scope_allows : Text → Text → Text → Bool
scope_allows scope method path =
    if text_eq scope (codes "admin") || text_eq scope []
    then true
    else if text_eq scope (codes "read")
    then is_safe_method method
    else if text_eq scope (codes "write")
    then (if is_safe_method method
        then true
        else text_eq method (codes "PUT") && is_entry_state_path path)
    else false

-- `Limits`
pub record Limits : Type 0 where
  pub max_feeds_per_editor : ℤ
  pub max_webhooks_per_editor : ℤ
  pub editor_min_poll_interval : Duration

-- The checks: true where the code returns nil. A principal counts by whether it is an admin.
unfoldable pub feeds : Limits → Bool → ℤ → Bool
feeds l is_admin current =
    leb_ℤ l.max_feeds_per_editor (pos 0) || is_admin || ltb_ℤ current l.max_feeds_per_editor

unfoldable pub webhooks : Limits → Bool → ℤ → Bool
webhooks l is_admin current =
    leb_ℤ l.max_webhooks_per_editor (pos 0) || is_admin || ltb_ℤ current l.max_webhooks_per_editor

-- The whole minutes of the editor's minimum, rounded up.
abbrev pub floor_minutes : Duration → ℕ
floor_minutes (pos n) = if n % minute == 0 then n / minute else n / minute + 1
floor_minutes _ = 0

unfoldable pub poll_interval : Limits → Bool → ℤ → Bool
poll_interval l is_admin minutes =
    if leb_ℤ l.editor_min_poll_interval (pos 0) || is_admin
    then true
    else leb_ℤ (pos (floor_minutes l.editor_min_poll_interval)) minutes

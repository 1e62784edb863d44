-- ===== src/Webhook/OnSuccess.antt =====
-- internal/storage/webhook_on_success.go: what a delivered webhook does to the entry.
pub mod Merge
use rssam.Common.{ℕ, Bool, true, false, ◌||◌, Option, none, some, List, [], ◌∷◌, if◌then◌else◌}
use rssam.Common.Int.{ℤ, pos, ltb_ℤ}
use rssam.Common.Text.{Text, codes, text_eq, trim_space, to_lower}

-- The values of `on_success_entry`, and their spelling.
pub data OnSuccess : Type 0 where
  none_action : OnSuccess
  hash : OnSuccess
  delete : OnSuccess
  mark_read : OnSuccess

-- `NormalizeWebhookOnSuccess`; `none` is its error.
unfoldable pub normalize_webhook_on_success : Text → Option OnSuccess
normalize_webhook_on_success raw =
    let s = to_lower (trim_space raw) in
    if text_eq s []
    then some none_action
    else if text_eq s (codes "none")
    then some none_action
    else if text_eq s (codes "hash")
    then some hash
    else if text_eq s (codes "delete")
    then some delete
    else if text_eq s (codes "mark_read")
    then some mark_read
    else none

-- The variables `hasDelete`, `hasHash` and `hasRead`.
pub record Seen : Type 0 where
  pub has_delete : Bool
  pub has_hash : Bool
  pub has_read : Bool

unfoldable pub note : Option OnSuccess → Seen → Seen
note none seen = seen
note (some none_action) seen = seen
note (some hash) seen = record seen { has_hash = true }
note (some delete) seen = record seen { has_delete = true }
note (some mark_read) seen = record seen { has_read = true }

unfoldable pub note_all : Seen → List Text → Seen
unfolding note
note_all seen [] = seen
note_all seen (raw ∷ raws) = note_all (note (normalize_webhook_on_success raw) seen) raws

abbrev pub strongest : Seen → OnSuccess
strongest seen =
    if seen.has_delete
    then delete
    else if seen.has_hash
    then hash
    else if seen.has_read
    then mark_read
    else none_action

unfoldable pub merge_on_success_actions : List Text → OnSuccess
unfolding note_all
merge_on_success_actions actions =
    strongest (note_all (record { has_delete = false; has_hash = false; has_read = false }) actions)

-- The text of an action, as stored.
abbrev pub spelling : OnSuccess → Text
spelling none_action = codes "none"
spelling hash = codes "hash"
spelling delete = codes "delete"
spelling mark_read = codes "mark_read"

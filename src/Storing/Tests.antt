-- ===== src/Storing/Tests.antt =====
-- Polls of filtered and relay feeds, and the theorems applied to them.
use rssam.Common.{
  ℕ, ◌+◌, ◌≡◌, refl, Bool, true, false, Option, none, some, List, [], ◌∷◌, if◌then◌else◌, ◌==◌,
}
use rssam.Common.Maps.{id_key, find, insert, delete}
use rssam.Common.Text.{Text, codes, text_eq, trim_space, to_lower, lower, times}
use rssam.Storing.{
  Item, full, filtered, relay, store_mode, asked_hashes, fresh_items, subscriber_filters, parted,
  process_entries_filtered,
}
use rssam.Storing.Conserved.{hashes_of, is_new, one_if, times-process_entries_filtered}
use rssam.Storing.Actions.{
  FilterAction, ActionFilter, Subscription, create_matches, assign_label, enqueue_webhook,
  mark_removed, publish_new, drop_undelivered, parse_action_param_id, apply_filter_action,
  apply_actions, filter_by_id, apply_filter_actions, filter_loop, enqueue_subscription_webhook,
  apply_subscriber_filters, apply_all, after_store,
}
use rssam.Storing.Relay.{IsRelayed, after_store-IsRelayed}

storing : Unit {0}
unfolding store_mode asked_hashes fresh_items subscriber_filters parted process_entries_filtered
    parse_action_param_id apply_filter_action apply_actions filter_by_id apply_filter_actions
    filter_loop enqueue_subscription_webhook apply_subscriber_filters apply_all after_store find
    insert delete trim_space to_lower lower
storing = tt

abbrev item : Text → Item
item hash = record { hash = hash; title = []; content = [] }

abbrev items : List Item
items = item (codes "a") ∷ item [] ∷ item (codes "b") ∷ item (codes "a") ∷ item (codes "c") ∷ []

-- Subscribers and filters are names; the filter "fa" wants the item "a".
abbrev filters_of_user : ℕ → Option (List Text)
filters_of_user n = if n == 0 then some [] else some (codes "fa" ∷ [])

abbrev matches : List Text → Item → Option (List ℕ)
matches filters p = if text_eq p.hash (codes "a") then some (1 ∷ []) else some []

abbrev known : List Text → Option (List Text)
known asked = some (codes "c" ∷ [])

abbrev sanitize : Text → Text
sanitize s = s

storing_runs :
    (process_entries_filtered filters_of_user matches known sanitize (0 ∷ 7 ∷ []) items
      ≡ some ((item (codes "a") ∷ [], codes "b" ∷ []), 2))
    × (store_mode (codes " Dedup_only") (some full) ≡ filtered)
    × (store_mode (codes "filtered") (some relay) ≡ relay)
    × (parse_action_param_id (codes " +12 ") ≡ some 12)
    × (parse_action_param_id (codes "-12") ≡ none)
    × (parse_action_param_id (codes "9223372036854775808") ≡ none)
unfolding storing
storing_runs = (refl, refl, refl, refl, refl, refl)

times-process_entries_filtered_example :
    times (codes "b") (hashes_of (item (codes "a") ∷ [])) + times (codes "b") (codes "b" ∷ [])
    ≡ one_if (is_new (codes "c" ∷ []) items (codes "b"))
unfolding storing
times-process_entries_filtered_example =
    times-process_entries_filtered filters_of_user matches known sanitize (0 ∷ 7 ∷ []) items
      (codes "c" ∷ []) (item (codes "a") ∷ []) (codes "b" ∷ []) 2 (codes "b") refl refl

abbrev actions : List FilterAction
actions =
    record { action_type = codes "label"; action_param = codes "5" }
    ∷ record { action_type = codes " Webhook"; action_param = codes "9" }
    ∷ record { action_type = codes "delete"; action_param = [] }
    ∷ []

abbrev action_filters : Subscription → List ActionFilter
action_filters sub = record { id = 1; actions = actions } ∷ []

abbrev subscribers : List Subscription
subscribers = record { user_id = 3; webhook_id = some 8 } ∷ []

abbrev matched : List ActionFilter → ℕ → Option (List ℕ)
matched filters entry = some (1 ∷ [])

abbrev all_labels : ℕ → ℕ → Bool
all_labels user label = true

action_runs :
    (after_store all_labels matched action_filters subscribers (40 ∷ []) false
      ≡ create_matches (1 ∷ []) 40
        ∷ assign_label 40 5
        ∷ enqueue_webhook 9 40
        ∷ mark_removed 3 40
        ∷ enqueue_webhook 8 40
        ∷ publish_new (40 ∷ [])
        ∷ [])
    × (after_store all_labels matched action_filters subscribers (40 ∷ []) true
        ≡ enqueue_webhook 9 40 ∷ enqueue_webhook 8 40 ∷ drop_undelivered (40 ∷ []) ∷ [])
unfolding storing
action_runs = (refl, refl)

after_store-IsRelayed_example :
    IsRelayed all_labels matched
      (40 ∷ [])
      (after_store all_labels matched action_filters subscribers (40 ∷ []) true)
after_store-IsRelayed_example =
    after_store-IsRelayed all_labels matched action_filters subscribers (40 ∷ [])

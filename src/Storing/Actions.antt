-- ===== src/Storing/Actions.antt =====
-- After the entries are stored: `afterStore` and `applySubscriberFilters` of
-- internal/service/feed_refresher.go, and internal/service/filter_actions.go. A poll is a function to
-- the list of its writes; all stores of the refresher are set.
use rssam.Common.{
  ℕ, ◌^◌, Bool, not, ◌&&◌, Option, none, some, List, [], ◌∷◌, ◌++◌, if◌then◌else◌, null, all, ◌==◌,
  ltb,
}
use rssam.Common.Maps.{id_key, find, insert}
use rssam.Common.Text.{Text, codes, text_eq, trim_space, to_lower, is_digit, digits_value}

pub record FilterAction : Type 0 where
  pub action_type : Text
  pub action_param : Text

pub record ActionFilter : Type 0 where
  pub id : ℕ
  pub actions : List FilterAction

pub record Subscription : Type 0 where
  pub user_id : ℕ
  pub webhook_id : Option ℕ

-- The writes: `CreateFilterMatches`, `AssignEntryLabel`, `EnqueueWebhookLogs`, `MarkEntriesRemoved`,
-- `PublishNewEntries` and `DropUndeliveredRelayEntries`.
pub data Write : Type 0 where
  create_matches : List ℕ → ℕ → Write
  assign_label : ℕ → ℕ → Write
  enqueue_webhook : ℕ → ℕ → Write
  mark_removed : ℕ → ℕ → Write
  publish_new : List ℕ → Write
  drop_undelivered : List ℕ → Write

abbrev positive_id : ℕ → Option ℕ
positive_id n = if ltb 0 n && ltb n (2 ^ 63) then some n else none

abbrev unsigned_id : Text → Option ℕ
unsigned_id s = if not (null s) && all is_digit s then positive_id (digits_value 0 s) else none

abbrev signed_id : Text → Option ℕ
signed_id [] = none
signed_id (c ∷ s) = if c == b'+' then unsigned_id s else unsigned_id (c ∷ s)

-- `ParseActionParamID`; a negative number is refused as a sign that is no digit.
unfoldable pub parse_action_param_id : Text → Option ℕ
parse_action_param_id param = signed_id (trim_space param)

-- `get_label` is whether `GetLabel` finds the label of the user.
module _ (get_label : ℕ → ℕ → Bool) where
  abbrev label_writes : ℕ → ℕ → Option ℕ → List Write
  label_writes user entry none = []
  label_writes user entry (some label) =
      if get_label user label then assign_label entry label ∷ [] else []

  abbrev pub webhook_writes : ℕ → Option ℕ → List Write
  webhook_writes entry none = []
  webhook_writes entry (some webhook) = enqueue_webhook webhook entry ∷ []

  abbrev pub kind_of : FilterAction → Text
  kind_of action = to_lower (trim_space action.action_type)

  unfoldable pub apply_filter_action : ℕ → ℕ → FilterAction → List Write
  apply_filter_action user entry action =
      let kind = kind_of action in
      if text_eq kind (codes "label")
      then label_writes user entry (parse_action_param_id action.action_param)
      else if text_eq kind (codes "webhook")
      then webhook_writes entry (parse_action_param_id action.action_param)
      else if text_eq kind (codes "delete")
      then mark_removed user entry ∷ []
      else []

  unfoldable pub apply_actions : ℕ → ℕ → Bool → List FilterAction → List Write
  apply_actions user entry relay [] = []
  apply_actions user entry relay (action ∷ actions) =
      let rest = apply_actions user entry relay actions in
      if relay && not (text_eq (kind_of action) (codes "webhook"))
      then rest
      else apply_filter_action user entry action ++ rest

  -- `filterByID`
  unfoldable pub filter_by_id :
      List ActionFilter → List (ℕ × ActionFilter) → List (ℕ × ActionFilter)
  filter_by_id [] m = m
  filter_by_id (f ∷ filters) m = filter_by_id filters (insert f.id f m)

  abbrev pub of_filter : ℕ → ℕ → Bool → Option ActionFilter → List Write
  of_filter user entry relay none = []
  of_filter user entry relay (some f) = apply_actions user entry relay f.actions

  -- The ids that matched, in the order of the iteration.
  unfoldable pub apply_filter_actions : ℕ → ℕ → List ActionFilter → List ℕ → Bool → List Write
  apply_filter_actions user entry filters [] relay = []
  apply_filter_actions user entry filters (id ∷ ids) relay =
      of_filter user entry relay (find id (filter_by_id filters []))
      ++ apply_filter_actions user entry filters ids relay

  -- `match_entry` gives the ids of the filters that match an entry, each once, none on an error.
  module _ (match_entry : List ActionFilter → ℕ → Option (List ℕ)) where
    abbrev pub matched_writes : ℕ → ℕ → List ActionFilter → Bool → List ℕ → List Write
    matched_writes user entry filters relay [] = []
    matched_writes user entry filters relay (id ∷ ids) =
        (if relay then [] else create_matches (id ∷ ids) entry ∷ [])
        ++ apply_filter_actions user entry filters (id ∷ ids) relay

    abbrev pub entry_writes :
        Subscription → List ActionFilter → Bool → ℕ → Option (List ℕ) → List Write
    entry_writes sub filters relay entry none = []
    entry_writes sub filters relay entry (some ids) =
        matched_writes sub.user_id entry filters relay ids ++ webhook_writes entry sub.webhook_id

    -- The loop over the entries.
    unfoldable pub filter_loop : Subscription → List ActionFilter → Bool → List ℕ → List Write
    filter_loop sub filters relay [] = []
    filter_loop sub filters relay (entry ∷ entries) =
        entry_writes sub filters relay entry (match_entry filters entry)
        ++ filter_loop sub filters relay entries

    -- `enqueueSubscriptionWebhookBestEffort`
    unfoldable pub enqueue_subscription_webhook : Subscription → List ℕ → List Write
    enqueue_subscription_webhook sub [] = []
    enqueue_subscription_webhook sub (entry ∷ entries) =
        webhook_writes entry sub.webhook_id ++ enqueue_subscription_webhook sub entries

    unfoldable pub apply_subscriber_filters :
        Subscription → List ActionFilter → List ℕ → Bool → List Write
    apply_subscriber_filters sub filters entries relay =
        if null filters
        then enqueue_subscription_webhook sub entries
        else filter_loop sub filters relay entries

    unfoldable pub apply_all :
        (Subscription → List ActionFilter) → List Subscription → List ℕ → Bool → List Write
    apply_all filters_of [] entries relay = []
    apply_all filters_of (sub ∷ subs) entries relay =
        apply_subscriber_filters sub (filters_of sub) entries relay
        ++ apply_all filters_of subs entries relay

    unfoldable pub after_store :
        (Subscription → List ActionFilter) → List Subscription → List ℕ → Bool → List Write
    after_store filters_of subs entries relay =
        if null entries
        then []
        else apply_all filters_of subs entries relay
          ++ (if relay then drop_undelivered entries ∷ [] else publish_new entries ∷ [])

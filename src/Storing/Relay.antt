-- ===== src/Storing/Relay.antt =====
-- The entries of a relay feed exist for webhooks only.
use rssam.Common.{
  ℕ, ◌≡◌, refl, Bool, true, false, Option, none, some, List, [], ◌∷◌, ◌++◌, null, All, All-append,
  Bool-cases, inl, inr,
}
use rssam.Common.Maps.{id_key, find}
use rssam.Common.Text.{Text, codes, text_eq, text_eq_iff}
use rssam.Storing.Actions.{
  FilterAction, ActionFilter, Subscription, Write, create_matches, assign_label, enqueue_webhook,
  mark_removed, publish_new, drop_undelivered, parse_action_param_id, kind_of, webhook_writes,
  apply_filter_action, apply_actions, filter_by_id, of_filter, apply_filter_actions, matched_writes,
  entry_writes, filter_loop, enqueue_subscription_webhook, apply_subscriber_filters, apply_all,
  after_store,
}

-- A delivery is enqueued.
abbrev pub IsRelayWrite : Write → Type 0
IsRelayWrite (enqueue_webhook webhook entry) = Unit
IsRelayWrite (drop_undelivered entries) = ⊥
IsRelayWrite (create_matches ids entry) = ⊥
IsRelayWrite (assign_label entry label) = ⊥
IsRelayWrite (mark_removed user entry) = ⊥
IsRelayWrite (publish_new entries) = ⊥

module _ (get_label : ℕ → ℕ → Bool) where
  relay-webhook_writes :
      (entry : ℕ) (o : Option ℕ) → All IsRelayWrite (webhook_writes get_label entry o)
  relay-webhook_writes entry none = tt
  relay-webhook_writes entry (some webhook) = (tt, tt)

  relay-apply_filter_action :
      (user entry : ℕ) (action : FilterAction)
      → text_eq (kind_of get_label action) (codes "webhook") ≡ true
      → All IsRelayWrite (apply_filter_action get_label user entry action)
  unfolding apply_filter_action
  relay-apply_filter_action user entry action h =
      rw (not_label (kind_of get_label action) h, h)
        (relay-webhook_writes entry (parse_action_param_id action.action_param))
    where
      not_label :
          (kind : Text)
          → text_eq kind (codes "webhook") ≡ true
          → text_eq kind (codes "label") ≡ false
      not_label kind e = rw ((text_eq_iff kind (codes "webhook")).0 e) refl

  relay-apply_actions :
      (user entry : ℕ) (actions : List FilterAction)
      → All IsRelayWrite (apply_actions get_label user entry true actions)
  unfolding apply_actions
  relay-apply_actions user entry [] = tt
  relay-apply_actions user entry (action ∷ actions) =
      elim (Bool-cases (text_eq (kind_of get_label action) (codes "webhook"))) [
        | inl webhook ↦ rw webhook (
            All-append IsRelayWrite (apply_filter_action get_label user entry action) _
              (relay-apply_filter_action user entry action webhook)
              (relay-apply_actions user entry actions))
        | inr other ↦ rw other (relay-apply_actions user entry actions)
      ]

  relay-of_filter :
      (user entry : ℕ) (o : Option ActionFilter)
      → All IsRelayWrite (of_filter get_label user entry true o)
  relay-of_filter user entry none = tt
  relay-of_filter user entry (some f) = relay-apply_actions user entry f.actions

  relay-apply_filter_actions :
      (user entry : ℕ) (filters : List ActionFilter) (ids : List ℕ)
      → All IsRelayWrite (apply_filter_actions get_label user entry filters ids true)
  unfolding apply_filter_actions
  relay-apply_filter_actions user entry filters [] = tt
  relay-apply_filter_actions user entry filters (id ∷ ids) =
      All-append IsRelayWrite
        (of_filter get_label user entry true (find id (filter_by_id get_label filters []))) _
        (relay-of_filter user entry (find id (filter_by_id get_label filters [])))
        (relay-apply_filter_actions user entry filters ids)

  module _ (match_entry : List ActionFilter → ℕ → Option (List ℕ)) where
    relay-matched :
        (user entry : ℕ) (filters : List ActionFilter) (ids : List ℕ)
        → All IsRelayWrite (matched_writes get_label match_entry user entry filters true ids)
    relay-matched user entry filters [] = tt
    relay-matched user entry filters (id ∷ ids) =
        relay-apply_filter_actions user entry filters (id ∷ ids)

    relay-entry :
        (sub : Subscription) (filters : List ActionFilter) (entry : ℕ) (o : Option (List ℕ))
        → All IsRelayWrite (entry_writes get_label match_entry sub filters true entry o)
    relay-entry sub filters entry none = tt
    relay-entry sub filters entry (some ids) =
        All-append IsRelayWrite
          (matched_writes get_label match_entry sub.user_id entry filters true ids) _
          (relay-matched sub.user_id entry filters ids) (relay-webhook_writes entry sub.webhook_id)

    relay-filter_loop :
        (sub : Subscription) (filters : List ActionFilter) (entries : List ℕ)
        → All IsRelayWrite (filter_loop get_label match_entry sub filters true entries)
    unfolding filter_loop
    relay-filter_loop sub filters [] = tt
    relay-filter_loop sub filters (entry ∷ entries) =
        All-append IsRelayWrite
          (entry_writes get_label match_entry sub filters true entry (match_entry filters entry)) _
          (relay-entry sub filters entry (match_entry filters entry))
          (relay-filter_loop sub filters entries)

    relay-enqueue :
        (sub : Subscription) (entries : List ℕ)
        → All IsRelayWrite (enqueue_subscription_webhook get_label match_entry sub entries)
    unfolding enqueue_subscription_webhook
    relay-enqueue sub [] = tt
    relay-enqueue sub (entry ∷ entries) =
        All-append IsRelayWrite (webhook_writes get_label entry sub.webhook_id) _
          (relay-webhook_writes entry sub.webhook_id) (relay-enqueue sub entries)

    relay-subscriber :
        (sub : Subscription) (filters : List ActionFilter) (entries : List ℕ)
        → All IsRelayWrite (apply_subscriber_filters get_label match_entry sub filters entries true)
    unfolding apply_subscriber_filters
    relay-subscriber sub filters entries = elim (Bool-cases (null filters)) [
      | inl none_enabled ↦ rw none_enabled (relay-enqueue sub entries)
      | inr enabled ↦ rw enabled (relay-filter_loop sub filters entries)
    ]

    relay-apply_all :
        (filters_of : Subscription → List ActionFilter) (subs : List Subscription)
        (entries : List ℕ)
        → All IsRelayWrite (apply_all get_label match_entry filters_of subs entries true)
    unfolding apply_all
    relay-apply_all filters_of [] entries = tt
    relay-apply_all filters_of (sub ∷ subs) entries =
        All-append IsRelayWrite
          (apply_subscriber_filters get_label match_entry sub (filters_of sub) entries true) _
          (relay-subscriber sub (filters_of sub) entries) (relay-apply_all filters_of subs entries)

    -- What is written for new entries: deliveries, and then the removal of those of the entries that
    -- have none. Without entries nothing is written.
    abbrev pub IsRelayed : List ℕ → List Write → Type 0
    IsRelayed [] ws = ws ≡ []
    IsRelayed (entry ∷ entries) ws =
        (qs : List Write) × (ws ≡ qs ++ drop_undelivered (entry ∷ entries) ∷ [])
        × All IsRelayWrite qs

    -- After a poll of a relay feed with new entries the writes are deliveries that are enqueued, and
    -- then, as the last one, the removal of those of these entries that have no delivery: no matches, no
    -- labels, no removals for a user, no announcement. Without new entries there are no writes.
    pub after_store-IsRelayed :
        (filters_of : Subscription → List ActionFilter) (subs : List Subscription)
        (entries : List ℕ)
        → IsRelayed entries (after_store get_label match_entry filters_of subs entries true)
    unfolding after_store
    after_store-IsRelayed filters_of subs [] = refl
    after_store-IsRelayed filters_of subs (entry ∷ entries) = (
      apply_all get_label match_entry filters_of subs (entry ∷ entries) true,
      refl,
      relay-apply_all filters_of subs (entry ∷ entries),
    )

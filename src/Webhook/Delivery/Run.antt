-- ===== src/Webhook/Delivery/Run.antt =====
-- The steps of `deliverWebhookLog`, `recordWebhookFailure` and `applyOnSuccessEntry` of
-- internal/worker/webhooks.go, each a function to the list of its effects.
use rssam.Common.{
  ℕ, zero, suc, Bool, true, false, not, ◌&&◌, ◌||◌, Option, none, some, List, [], ◌∷◌, ◌++◌,
  if◌then◌else◌, null,
}
use rssam.Common.Int.{ℤ, pos, ◌+ℤ◌, eq_ℤ}
use rssam.Common.Text.{Text, codes, text_eq, trim_space}
use rssam.Webhook.Backoff.{Settings, webhook_retry_schedule, webhook_http_retryable}
use rssam.Webhook.OnSuccess.{
  OnSuccess, none_action, hash, delete, mark_read, normalize_webhook_on_success,
  merge_on_success_actions, spelling,
}
use rssam.Webhook.Delivery.{
  webhook_disabled_park, or_else, retry_after_of, normalize_webhook_kind, is_provider, is_2xx,
  provider_delivery_ok, WebhookLog, DeliveryContext, Loaded, loaded, not_found, load_failed,
  Outbound, Response, Failure, context_not_found, load_error, webhook_disabled, payload_error,
  outbound_error, template_error, url_refused, request_error, transport_error, provider_refused,
  Effect, mark_sent, mark_failed, pause, send, mark_read_if_active, strip_payload,
  delete_relay_entry, mark_removed, World,
}

module _ (cfg : Settings) (w : World) (l : WebhookLog) where
  abbrev pub attempt : ℤ
  attempt = l.attempt +ℤ pos 1

  -- A failure for good.
  abbrev pub dead : Failure → List Effect
  dead why = mark_failed l.id none why attempt none true ∷ []

  unfoldable pub record_webhook_failure : Option ℤ → Failure → Bool → List Effect
  record_webhook_failure status why retryable =
      let (next, is_dead) = webhook_retry_schedule cfg w.random w.now attempt in
      if retryable
      then mark_failed l.id status why attempt next is_dead ∷ []
      else mark_failed l.id status why attempt none true ∷ []

  -- The last step of `applyOnSuccessEntry`, where no other delivery is open.
  abbrev pub merged_effect : DeliveryContext → OnSuccess → List Effect
  merged_effect ctx hash = strip_payload l.entry_id ∷ []
  merged_effect ctx delete = mark_removed ctx.webhook.user_id l.entry_id ∷ []
  merged_effect ctx none_action = []
  merged_effect ctx mark_read = []

  abbrev pub this_action : DeliveryContext → OnSuccess
  this_action ctx = or_else (normalize_webhook_on_success ctx.webhook.on_success_entry) none_action

  abbrev pub read_effect : DeliveryContext → OnSuccess → List Effect
  read_effect ctx mark_read = mark_read_if_active ctx.webhook.user_id l.entry_id ∷ []
  read_effect ctx none_action = []
  read_effect ctx hash = []
  read_effect ctx delete = []

  abbrev pub outcome_effect : DeliveryContext → Option (ℕ × OnSuccess) → List Effect
  outcome_effect ctx none = []
  outcome_effect ctx (some (zero, resolved)) =
      merged_effect ctx
        (merge_on_success_actions (spelling (this_action ctx) ∷ spelling resolved ∷ []))
  outcome_effect ctx (some (suc incomplete, resolved)) = []

  unfoldable pub apply_on_success_entry : DeliveryContext → List Effect
  apply_on_success_entry ctx =
      if cfg.dedup_only_storage || text_eq ctx.store_mode (codes "relay")
      then delete_relay_entry l.entry_id l.id ∷ []
      else read_effect ctx (this_action ctx) ++ outcome_effect ctx w.outcome

  -- After the response.
  unfoldable pub conclude : DeliveryContext → Text → Option Response → List Effect
  conclude ctx kind none = record_webhook_failure none transport_error true
  conclude ctx kind (some resp) =
      if provider_delivery_ok w kind resp.status resp.snippet
      then mark_sent l.id attempt resp.status ∷ apply_on_success_entry ctx
      else if eq_ℤ resp.status (pos 429)
      then (let next = w.now +ℤ retry_after_of resp w.now in
          pause l.webhook_id next
          ∷ mark_failed l.id (some resp.status) provider_refused l.attempt (some next) false
          ∷ [])
      else record_webhook_failure (some resp.status) provider_refused
          (webhook_http_retryable resp.status && not (is_2xx resp.status))

  abbrev pub allows : Text → Bool
  allows url = elim w.guard [ none ↦ true | some validates ↦ validates url ]

  abbrev pub or_post : Text → Text
  or_post method = if null method then codes "POST" else method

  -- From the SSRF guard on; `sign` is `signHMAC`.
  unfoldable pub dispatch : DeliveryContext → Text → Bool → Outbound → List Effect
  dispatch ctx kind sign out =
      if allows out.url
      then (if w.request_ok
          then send (record out { method = or_post out.method })
              (sign && not (null (trim_space ctx.webhook.secret)))
            ∷ conclude ctx kind w.response
          else record_webhook_failure none request_error true)
      else dead url_refused

  abbrev pub http_outbound : DeliveryContext → Text → Outbound
  http_outbound ctx body = record {
    method = ctx.webhook.method;
    url = ctx.webhook.url;
    body = body;
  }

  -- The request of each kind of webhook.
  unfoldable pub prepare : DeliveryContext → Text → Text → List Effect
  prepare ctx kind payload =
      if is_provider kind
      then elim w.outbound [ none ↦ dead outbound_error | some out ↦ dispatch ctx kind false out ]
      else if null (trim_space ctx.webhook.body_template)
      then dispatch ctx kind true (http_outbound ctx payload)
      else elim w.rendered [
        | none ↦ dead template_error
        | some body ↦ dispatch ctx kind true (http_outbound ctx body)
      ]

  abbrev pub deliver_loaded : Loaded → List Effect
  deliver_loaded not_found = dead context_not_found
  deliver_loaded load_failed = record_webhook_failure none load_error true
  deliver_loaded (loaded ctx) =
      if ctx.webhook.enabled
      then elim w.payload [
        | none ↦ dead payload_error
        | some payload ↦ prepare ctx (normalize_webhook_kind ctx.webhook.kind) payload
      ]
      else mark_failed l.id none webhook_disabled l.attempt (some (w.now +ℤ webhook_disabled_park))
          false
        ∷ []

  unfoldable pub deliver_webhook_log : List Effect
  deliver_webhook_log = deliver_loaded w.load

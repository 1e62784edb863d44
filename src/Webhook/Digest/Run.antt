-- ===== src/Webhook/Digest/Run.antt =====
-- `deliverWebhookDigest` with `digestFailure` and `applyDigestOnSuccess` of
-- internal/worker/webhook_digest.go, as a function to the list of its effects.
use rssam.Common.{
  ℕ, Bool, true, false, not, ◌&&◌, Option, none, some, List, [], ◌∷◌, ◌++◌, if◌then◌else◌, null,
}
use rssam.Common.Int.{ℤ, pos, ◌+ℤ◌, eq_ℤ}
use rssam.Common.Text.{Text, codes, text_eq, trim_space}
use rssam.Poll.Schedule.{Time}
use rssam.Webhook.Backoff.{Settings, webhook_retry_schedule, webhook_http_retryable}
use rssam.Webhook.OnSuccess.{OnSuccess}
use rssam.Webhook.Delivery.{
  webhook_disabled_park, retry_after_of, is_2xx, provider_delivery_ok, WebhookLog, Webhook,
  Outbound, Response, Failure, load_error, webhook_disabled, entries_not_found, outbound_error,
  url_refused, request_error, transport_error, provider_refused, Effect, World,
}
use rssam.Webhook.Delivery.Run.{apply_on_success_entry}

-- `WebhookDigestItem`, with the answer of `EntryWebhookOutcome` for its entry.
pub record DigestItem : Type 0 where
  pub log_id : ℕ
  pub entry_id : ℕ
  pub store_mode : Text
  pub outcome : Option (ℕ × OnSuccess)

-- What `LoadWebhookDigestContext` and `BuildWebhookDigestOutbound` give, the latter with the kind; the
-- other answers are those of a single delivery.
pub record DigestWorld : Type 0 where
  pub world : World
  pub load : Option (Webhook × List DigestItem)
  pub built : Option (Outbound × Text)

-- The writes for all rows of the digest, its request and pause, and the effects of a single delivery
-- on the entries.
pub data DigestEffect : Type 0 where
  mark_logs_sent : List ℕ → ℤ → DigestEffect
  mark_logs_failed : List ℕ → Option ℤ → Failure → Option Time → Bool → Bool → DigestEffect
  digest_pause : ℕ → Time → DigestEffect
  digest_send : Outbound → Bool → DigestEffect
  on_entry : Effect → DigestEffect

module _ (cfg : Settings) (w : DigestWorld) (l : WebhookLog) where
  abbrev pub digest_ids : List ℕ
  digest_ids = if null l.peers then l.id ∷ [] else l.peers

  abbrev pub digest_attempt : ℤ
  digest_attempt = l.attempt +ℤ pos 1

  unfoldable pub digest_failure : Option ℤ → Failure → Bool → List DigestEffect
  digest_failure status why retryable =
      let (next, is_dead) = webhook_retry_schedule cfg w.world.random w.world.now digest_attempt in
      if retryable
      then mark_logs_failed digest_ids status why next is_dead true ∷ []
      else mark_logs_failed digest_ids status why none true true ∷ []

  abbrev pub digest_dead : Failure → List DigestEffect
  digest_dead why = mark_logs_failed digest_ids none why none true true ∷ []

  abbrev pub on_entries : List Effect → List DigestEffect
  on_entries [] = []
  on_entries (e ∷ es) = on_entry e ∷ on_entries es

  -- The row handed to the single delivery's step; the webhook is the one that was loaded.
  abbrev pub item_log : DigestItem → WebhookLog
  item_log it = record {
    id = it.log_id;
    webhook_id = l.webhook_id;
    entry_id = it.entry_id;
    attempt = pos 0;
    digest_minutes = pos 0;
    peers = [];
  }

  unfoldable pub apply_digest_on_success : Webhook → List DigestItem → List DigestEffect
  apply_digest_on_success wh [] = []
  apply_digest_on_success wh (it ∷ items) =
      on_entries (
        apply_on_success_entry cfg (record w.world { outcome = it.outcome }) (item_log it)
          (record { webhook = wh; store_mode = it.store_mode }))
      ++ apply_digest_on_success wh items

  -- After the response.
  unfoldable pub digest_conclude :
      Webhook → List DigestItem → Text → Option Response → List DigestEffect
  digest_conclude wh items kind none = digest_failure none transport_error true
  digest_conclude wh items kind (some resp) =
      if provider_delivery_ok w.world kind resp.status resp.snippet
      then mark_logs_sent digest_ids resp.status ∷ apply_digest_on_success wh items
      else if eq_ℤ resp.status (pos 429)
      then (let next = w.world.now +ℤ retry_after_of resp w.world.now in
          digest_pause l.webhook_id next
          ∷ mark_logs_failed digest_ids (some resp.status) provider_refused (some next) false false
          ∷ [])
      else digest_failure (some resp.status) provider_refused
          (webhook_http_retryable resp.status && not (is_2xx resp.status))

  abbrev pub digest_allows : Text → Bool
  digest_allows url = elim w.world.guard [ none ↦ true | some validates ↦ validates url ]

  abbrev pub digest_signs : Webhook → Text → Bool
  digest_signs wh kind = text_eq kind (codes "http") && not (null (trim_space wh.secret))

  -- From the SSRF guard on.
  unfoldable pub digest_dispatch : Webhook → List DigestItem → Outbound × Text → List DigestEffect
  digest_dispatch wh items (out, kind) =
      if digest_allows out.url
      then (if w.world.request_ok
          then digest_send out (digest_signs wh kind)
            ∷ digest_conclude wh items kind w.world.response
          else digest_failure none request_error true)
      else digest_dead url_refused

  abbrev pub digest_loaded : Option (Webhook × List DigestItem) → List DigestEffect
  digest_loaded none = digest_failure none load_error true
  digest_loaded (some (wh, items)) =
      if wh.enabled
      then (if null items then digest_dead entries_not_found else elim w.built [
        | none ↦ digest_dead outbound_error
        | some built ↦ digest_dispatch wh items built
      ])
      else mark_logs_failed digest_ids none webhook_disabled
          (some (w.world.now +ℤ webhook_disabled_park)) false false
        ∷ []

  unfoldable pub deliver_webhook_digest : List DigestEffect
  deliver_webhook_digest = digest_loaded w.load

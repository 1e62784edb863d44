-- ===== src/Webhook/Digest/Status.antt =====
-- What every delivery of a digest leaves behind: one status for all its rows, in the words of a single
-- delivery.
use rssam.Common.{
  ℕ, suc, ◌≡◌, refl, Bool, true, not, ◌&&◌, Option, none, some, List, [], ◌∷◌, ◌++◌, arith,
}
use rssam.Common.Int.{ℤ}
use rssam.Common.Text.{Text}
use rssam.Webhook.Backoff.{Settings, webhook_http_retryable}
use rssam.Webhook.Delivery.{
  WebhookLog, Webhook, Outbound, Response, Failure, transport_error, provider_refused,
  request_error, load_error, Effect, is_2xx,
}
use rssam.Webhook.Digest.Run.{
  DigestItem, DigestWorld, DigestEffect, mark_logs_sent, mark_logs_failed, digest_pause,
  digest_send, on_entry, digest_failure, on_entries, apply_digest_on_success, digest_conclude,
  digest_dispatch, digest_loaded, deliver_webhook_digest,
}

-- The number of status writes among the effects.
abbrev pub digest_statuses : List DigestEffect → ℕ
digest_statuses [] = 0
digest_statuses (mark_logs_sent ids status ∷ es) = suc (digest_statuses es)
digest_statuses (mark_logs_failed ids status why next dead counted ∷ es) = suc (digest_statuses es)
digest_statuses (digest_pause id until ∷ es) = digest_statuses es
digest_statuses (digest_send out signed ∷ es) = digest_statuses es
digest_statuses (on_entry e ∷ es) = digest_statuses es

statuses-on_entries :
    (cfg : Settings) (w : DigestWorld) (l : WebhookLog) (es : List Effect)
    (rest : List DigestEffect)
    → digest_statuses (on_entries cfg w l es ++ rest) ≡ digest_statuses rest
statuses-on_entries cfg w l [] rest = refl
statuses-on_entries cfg w l (e ∷ es) rest = statuses-on_entries cfg w l es rest

module _ (cfg : Settings) (w : DigestWorld) (l : WebhookLog) where
  statuses-digest_on_success :
      (wh : Webhook) (items : List DigestItem)
      → digest_statuses (apply_digest_on_success cfg w l wh items) ≡ 0
  unfolding apply_digest_on_success
  statuses-digest_on_success wh [] = refl
  statuses-digest_on_success wh (it ∷ items) =
      rw (statuses-on_entries cfg w l _ _) (statuses-digest_on_success wh items)

  statuses-digest_failure :
      (status : Option ℤ) (why : Failure) (retryable : Bool)
      → digest_statuses (digest_failure cfg w l status why retryable) ≡ 1
  unfolding digest_failure
  statuses-digest_failure status why retryable = ground arith

  statuses-digest_conclude :
      (wh : Webhook) (items : List DigestItem) (kind : Text) (resp : Option Response)
      → digest_statuses (digest_conclude cfg w l wh items kind resp) ≡ 1
  unfolding digest_conclude
  statuses-digest_conclude wh items kind none = statuses-digest_failure none transport_error true
  statuses-digest_conclude wh items kind (some resp) = ground (
    arith,
    statuses-digest_on_success wh items,
    statuses-digest_failure (some resp.status) provider_refused
        (webhook_http_retryable resp.status && not (is_2xx resp.status)),
  )

  statuses-digest_dispatch :
      (wh : Webhook) (items : List DigestItem) (built : Outbound × Text)
      → digest_statuses (digest_dispatch cfg w l wh items built) ≡ 1
  unfolding digest_dispatch
  statuses-digest_dispatch wh items (out, kind) = ground (
    arith,
    statuses-digest_conclude wh items kind w.world.response,
    statuses-digest_failure none request_error true,
  )

  statuses-digest_loaded :
      (o : Option (Webhook × List DigestItem)) → digest_statuses (digest_loaded cfg w l o) ≡ 1
  statuses-digest_loaded none = statuses-digest_failure none load_error true
  statuses-digest_loaded (some (wh, items)) = grind (arith, statuses-digest_dispatch wh items)

  -- Every delivery of a digest writes the status of its rows exactly once, whatever happens.
  pub statuses-deliver_webhook_digest : digest_statuses (deliver_webhook_digest cfg w l) ≡ 1
  unfolding deliver_webhook_digest
  statuses-deliver_webhook_digest = statuses-digest_loaded w.load

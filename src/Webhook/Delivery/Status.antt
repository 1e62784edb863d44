-- ===== src/Webhook/Delivery/Status.antt =====
-- What every delivery leaves behind: the status of its row, and nothing sent without leave.
use rssam.Common.{
  ℕ, zero, suc, ◌+◌, ◌≡◌, refl, Bool, true, not, ◌&&◌, Option, none, some, List, [], ◌∷◌, ◌++◌,
  arith,
}
use rssam.Common.Int.{ℤ}
use rssam.Common.Text.{Text}
use rssam.Webhook.Backoff.{Settings, webhook_http_retryable}
use rssam.Webhook.OnSuccess.{OnSuccess}
use rssam.Webhook.Delivery.{
  WebhookLog, DeliveryContext, Loaded, loaded, not_found, load_failed, Outbound, Response, Failure,
  transport_error, provider_refused, request_error, load_error, Effect, mark_sent, mark_failed,
  pause, send, mark_read_if_active, strip_payload, delete_relay_entry, mark_removed, World, is_2xx,
  normalize_webhook_kind,
}
use rssam.Webhook.Delivery.Run.{
  record_webhook_failure, apply_on_success_entry, conclude, dispatch, prepare, deliver_webhook_log,
  merged_effect, read_effect, outcome_effect, this_action, deliver_loaded,
}

-- A sum over the status writes among the effects, of what `f` gives for the row of each.
abbrev pub statuses : (ℕ → ℕ) → List Effect → ℕ
statuses f [] = 0
statuses f (mark_sent id attempt status ∷ es) = f id + statuses f es
statuses f (mark_failed id status why attempt next dead ∷ es) = f id + statuses f es
statuses f (pause id until ∷ es) = statuses f es
statuses f (send out signed ∷ es) = statuses f es
statuses f (mark_read_if_active user entry ∷ es) = statuses f es
statuses f (strip_payload entry ∷ es) = statuses f es
statuses f (delete_relay_entry entry id ∷ es) = statuses f es
statuses f (mark_removed user entry ∷ es) = statuses f es

statuses-append :
    (f : ℕ → ℕ) (xs ys : List Effect) → statuses f (xs ++ ys) ≡ statuses f xs + statuses f ys
statuses-append f [] ys = omega arith
statuses-append f (mark_sent id attempt status ∷ es) ys = omega (arith, statuses-append f es ys)
statuses-append f (mark_failed id status why attempt next dead ∷ es) ys =
    omega (arith, statuses-append f es ys)
statuses-append f (pause id until ∷ es) ys = statuses-append f es ys
statuses-append f (send out signed ∷ es) ys = statuses-append f es ys
statuses-append f (mark_read_if_active user entry ∷ es) ys = statuses-append f es ys
statuses-append f (strip_payload entry ∷ es) ys = statuses-append f es ys
statuses-append f (delete_relay_entry entry id ∷ es) ys = statuses-append f es ys
statuses-append f (mark_removed user entry ∷ es) ys = statuses-append f es ys

module _ (cfg : Settings) (w : World) (l : WebhookLog) (f : ℕ → ℕ) where
  statuses-failure :
      (status : Option ℤ) (why : Failure) (retryable : Bool)
      → statuses f (record_webhook_failure cfg w l status why retryable) ≡ f l.id
  unfolding record_webhook_failure
  statuses-failure status why retryable = ground arith

  statuses-merged :
      (ctx : DeliveryContext) (a : OnSuccess) → statuses f (merged_effect cfg w l ctx a) ≡ 0
  statuses-merged ctx a = ground arith

  statuses-outcome :
      (ctx : DeliveryContext) (o : Option (ℕ × OnSuccess))
      → statuses f (outcome_effect cfg w l ctx o) ≡ 0
  statuses-outcome ctx none = refl
  statuses-outcome ctx (some (zero, resolved)) = statuses-merged ctx _
  statuses-outcome ctx (some (suc incomplete, resolved)) = refl

  statuses-read :
      (ctx : DeliveryContext) (a : OnSuccess) → statuses f (read_effect cfg w l ctx a) ≡ 0
  statuses-read ctx a = ground arith

  statuses-on_success :
      (ctx : DeliveryContext) → statuses f (apply_on_success_entry cfg w l ctx) ≡ 0
  unfolding apply_on_success_entry
  statuses-on_success ctx = ground (
    arith,
    statuses-append f (read_effect cfg w l ctx (this_action cfg w l ctx))
        (outcome_effect cfg w l ctx w.outcome),
    statuses-read ctx (this_action cfg w l ctx),
    statuses-outcome ctx w.outcome,
  )

  statuses-conclude :
      (ctx : DeliveryContext) (kind : Text) (resp : Option Response)
      → statuses f (conclude cfg w l ctx kind resp) ≡ f l.id
  unfolding conclude
  statuses-conclude ctx kind none = statuses-failure none transport_error true
  statuses-conclude ctx kind (some resp) = ground (
    arith,
    statuses-on_success ctx,
    statuses-failure (some resp.status) provider_refused
        (webhook_http_retryable resp.status && not (is_2xx resp.status)),
  )

  statuses-dispatch :
      (ctx : DeliveryContext) (kind : Text) (sign : Bool) (out : Outbound)
      → statuses f (dispatch cfg w l ctx kind sign out) ≡ f l.id
  unfolding dispatch
  statuses-dispatch ctx kind sign out =
      ground
        (arith, statuses-conclude ctx kind w.response, statuses-failure none request_error true)

  statuses-prepare :
      (ctx : DeliveryContext) (kind payload : Text)
      → statuses f (prepare cfg w l ctx kind payload) ≡ f l.id
  unfolding prepare
  statuses-prepare ctx kind payload = grind (arith, statuses-dispatch ctx kind)

  statuses-loaded : (o : Loaded) → statuses f (deliver_loaded cfg w l o) ≡ f l.id
  statuses-loaded not_found = omega arith
  statuses-loaded load_failed = statuses-failure none load_error true
  statuses-loaded (loaded ctx) =
      grind (arith, statuses-prepare ctx (normalize_webhook_kind ctx.webhook.kind))

  -- Whatever happens, a delivery writes a status exactly once, and it is that of its own row: a sum
  -- over the status writes, of any function of their rows, is the function's value at the row.
  pub statuses-deliver_webhook_log : statuses f (deliver_webhook_log cfg w l) ≡ f l.id
  unfolding deliver_webhook_log
  statuses-deliver_webhook_log = statuses-loaded w.load

-- ===== src/Webhook/Delivery/Marks.antt =====
-- What the effects of a delivery say: a failed row is dead or due later, a request went to a URL that
-- the guard lets through.
use rssam.Common.{
  ◌+◌, ◌/◌, ℕ, zero, suc, ◌<◌, ◌≤◌, ◌≡◌, refl, Bool, true, false, not, ◌&&◌, ◌||◌, Option, none,
  some, ◌∷◌, ◌^◌, null, All, All-append, Bool-cases, arith, inl, inr, if◌then◌else◌,
}
use rssam.Common.Int.{ℤ, pos, ◌+ℤ◌, ◌≤ℤ◌, ◌<ℤ◌, eq_ℤ, min_ℤ, max_ℤ, int_laws}
use rssam.Common.Text.{Text, text_eq, codes, trim_space}
use rssam.Poll.Schedule.{Duration, Time, second, hour}
use rssam.Webhook.Backoff.{Settings, webhook_retry_schedule}
use rssam.Webhook.Backoff.Laws.{webhook_retry_schedule_lem, IsNext}
use rssam.Webhook.OnSuccess.{OnSuccess, none_action, hash, delete, mark_read}
use rssam.Webhook.Delivery.{
  WebhookLog, DeliveryContext, Loaded, loaded, not_found, load_failed, Outbound, Response, Failure,
  transport_error, request_error, load_error, Effect, mark_sent, mark_failed, pause, send,
  mark_read_if_active, strip_payload, delete_relay_entry, mark_removed, World, retry_after_of,
  webhook_flood_max_wait, asked_wait, provider_delivery_ok, normalize_webhook_kind, outbound_error,
  template_error, payload_error, webhook_disabled_park, is_provider,
}
use rssam.Webhook.Delivery.Run.{
  record_webhook_failure, apply_on_success_entry, conclude, dispatch, prepare, deliver_webhook_log,
  allows, attempt, merged_effect, read_effect, outcome_effect, this_action, deliver_loaded, dead,
  http_outbound, or_post,
}

bounded_wait :
    (d : Duration)
    → (pos second ≤ℤ min_ℤ (max_ℤ d (pos second)) webhook_flood_max_wait)
      × (min_ℤ (max_ℤ d (pos second)) webhook_flood_max_wait ≤ℤ pos hour)
bounded_wait d = ground arith

-- The wait that a 429 asks for is at least a second and at most an hour, whatever the answer says.
pub retry_after_of_bounds :
    (resp : Response) (now : Time)
    → (pos second ≤ℤ retry_after_of resp now) × (retry_after_of resp now ≤ℤ pos hour)
unfolding retry_after_of
retry_after_of_bounds resp now = bounded_wait (asked_wait resp now)

module _ (cfg : Settings) (w : World) (l : WebhookLog) where
  -- Dead and never due again, or alive and due strictly later.
  abbrev pub IsDue : Option Time → Bool → Type 0
  IsDue none dead = dead ≡ true
  IsDue (some next) dead = (dead ≡ false) × (w.now <ℤ next)

  abbrev pub IsMark : Effect → Type 0
  IsMark (mark_sent id att status) = (id ≡ l.id) × (att ≡ attempt cfg w l)
  IsMark (mark_failed id status why att next dead) = (id ≡ l.id) × IsDue next dead
  IsMark (pause id until) = (id ≡ l.webhook_id) × (w.now <ℤ until)
  IsMark (send out signed) = allows cfg w l out.url ≡ true
  IsMark (mark_read_if_active user entry) = entry ≡ l.entry_id
  IsMark (strip_payload entry) = entry ≡ l.entry_id
  IsMark (delete_relay_entry entry id) = (entry ≡ l.entry_id) × (id ≡ l.id)
  IsMark (mark_removed user entry) = entry ≡ l.entry_id

  marks-merged : (ctx : DeliveryContext) (a : OnSuccess) → All IsMark (merged_effect cfg w l ctx a)
  marks-merged ctx none_action = tt
  marks-merged ctx hash = (refl, tt)
  marks-merged ctx delete = (refl, tt)
  marks-merged ctx mark_read = tt

  marks-outcome :
      (ctx : DeliveryContext) (o : Option (ℕ × OnSuccess))
      → All IsMark (outcome_effect cfg w l ctx o)
  marks-outcome ctx none = tt
  marks-outcome ctx (some (zero, resolved)) = marks-merged ctx _
  marks-outcome ctx (some (suc incomplete, resolved)) = tt

  marks-read : (ctx : DeliveryContext) (a : OnSuccess) → All IsMark (read_effect cfg w l ctx a)
  marks-read ctx none_action = tt
  marks-read ctx hash = tt
  marks-read ctx delete = tt
  marks-read ctx mark_read = (refl, tt)

  pub marks-on_success : (ctx : DeliveryContext) → All IsMark (apply_on_success_entry cfg w l ctx)
  unfolding apply_on_success_entry
  marks-on_success ctx =
      elim (Bool-cases (cfg.dedup_only_storage || text_eq ctx.store_mode (codes "relay"))) [
        | inl relayed ↦ rw relayed ((refl, refl), tt)
        | inr stored ↦ rw stored (
            All-append IsMark (read_effect cfg w l ctx (this_action cfg w l ctx))
              (outcome_effect cfg w l ctx w.outcome) (marks-read ctx (this_action cfg w l ctx))
              (marks-outcome ctx w.outcome))
      ]

  -- The schedule's answer is of that form.
  IsDue-of_next :
      (base top : ℕ) (o : Option Time × Bool) → 0 < base → IsNext w.now base top o → IsDue o.0 o.1
  IsDue-of_next base top (none, dead) h k = k
  IsDue-of_next base top (some next, dead) h k = (k.0, omega (int_laws, k.1))

module _ (cfg : Settings) (w : World) (l : WebhookLog) (base top : ℕ)
    (eb : cfg.webhook_retry_base ≡ pos base) (et : cfg.webhook_retry_max ≡ pos top) (hb : 0 < base)
    (hl : base ≤ top) (ht : top + top / 2 < 2 ^ 63) where
  pub schedule-IsDue :
      (att : ℤ)
      → IsDue cfg w l
          (webhook_retry_schedule cfg w.random w.now att).0
          (webhook_retry_schedule cfg w.random w.now att).1
  schedule-IsDue att =
      IsDue-of_next cfg w l base top _ hb
        (webhook_retry_schedule_lem cfg w.random w.now att base top eb et hb hl ht).1

  marks-failure :
      (status : Option ℤ) (why : Failure) (retryable : Bool)
      → All (IsMark cfg w l) (record_webhook_failure cfg w l status why retryable)
  unfolding record_webhook_failure
  marks-failure status why true = ((refl, schedule-IsDue (attempt cfg w l)), tt)
  marks-failure status why false = ((refl, refl), tt)

  pub later : (d : Duration) → pos second ≤ℤ d → w.now <ℤ w.now +ℤ d
  later d h = omega int_laws

  marks-conclude :
      (ctx : DeliveryContext) (kind : Text) (resp : Option Response)
      → All (IsMark cfg w l) (conclude cfg w l ctx kind resp)
  unfolding conclude
  marks-conclude ctx kind none = marks-failure none transport_error true
  marks-conclude ctx kind (some resp) =
      elim (Bool-cases (provider_delivery_ok w kind resp.status resp.snippet)) [
        | inl delivered ↦ rw delivered ((refl, refl), marks-on_success cfg w l ctx)
        | inr refused ↦ elim (Bool-cases (eq_ℤ resp.status (pos 429))) [
          | inl flood ↦
              let wait = later (retry_after_of resp w.now) (retry_after_of_bounds resp w.now).0 in
              rw (refused, flood) ((refl, wait), ((refl, (refl, wait)), tt))
          | inr other ↦ rw (refused, other) (marks-failure _ _ _)
        ]
      ]

  marks-dispatch :
      (ctx : DeliveryContext) (kind : Text) (sign : Bool) (out : Outbound)
      → All (IsMark cfg w l) (dispatch cfg w l ctx kind sign out)
  unfolding dispatch
  marks-dispatch ctx kind sign out = elim (Bool-cases (allows cfg w l out.url)) [
    | inl allowed ↦ rw allowed (marks-request w.request_ok allowed)
    | inr refused ↦ rw refused ((refl, refl), tt)
  ]
    where
      sent : Effect
      sent =
          send (record out { method = or_post cfg w l out.method })
            (sign && not (null (trim_space ctx.webhook.secret)))

      marks-request :
          (built : Bool)
          → allows cfg w l out.url ≡ true
          → All (IsMark cfg w l) (
              if built
              then sent ∷ conclude cfg w l ctx kind w.response
              else record_webhook_failure cfg w l none request_error true)
      marks-request true allowed = (allowed, marks-conclude ctx kind w.response)
      marks-request false allowed = marks-failure none request_error true

  marks-prepare :
      (ctx : DeliveryContext) (kind payload : Text)
      → All (IsMark cfg w l) (prepare cfg w l ctx kind payload)
  unfolding prepare
  marks-prepare ctx kind payload = elim (Bool-cases (is_provider kind)) [
    | inl provider ↦ rw provider (marks-built w.outbound)
    | inr http ↦ elim (Bool-cases (null (trim_space ctx.webhook.body_template))) [
      | inl plain ↦ rw (http, plain) (marks-dispatch ctx kind true _)
      | inr templated ↦ rw (http, templated) (marks-rendered w.rendered)
    ]
  ]
    where
      marks-built :
          (o : Option Outbound)
          → All (IsMark cfg w l) (elim o [
            | none ↦ dead cfg w l outbound_error
            | some out ↦ dispatch cfg w l ctx kind false out
          ])
      marks-built none = ((refl, refl), tt)
      marks-built (some out) = marks-dispatch ctx kind false out

      marks-rendered :
          (o : Option Text)
          → All (IsMark cfg w l) (elim o [
            | none ↦ dead cfg w l template_error
            | some body ↦ dispatch cfg w l ctx kind true (http_outbound cfg w l ctx body)
          ])
      marks-rendered none = ((refl, refl), tt)
      marks-rendered (some body) = marks-dispatch ctx kind true _

  marks-loaded : (o : Loaded) → All (IsMark cfg w l) (deliver_loaded cfg w l o)
  marks-loaded not_found = ((refl, refl), tt)
  marks-loaded load_failed = marks-failure none load_error true
  marks-loaded (loaded ctx) = elim (Bool-cases ctx.webhook.enabled) [
    | inl on ↦ rw on (marks-payload w.payload)
    | inr off ↦ rw off ((refl, (refl, later webhook_disabled_park (omega arith))), tt)
  ]
    where
      marks-payload :
          (o : Option Text)
          → All (IsMark cfg w l) (elim o [
            | none ↦ dead cfg w l payload_error
            | some payload ↦ prepare cfg w l ctx (normalize_webhook_kind ctx.webhook.kind) payload
          ])
      marks-payload none = ((refl, refl), tt)
      marks-payload (some payload) = marks-prepare ctx _ payload

  -- For settings with a positive retry base of at most the retry maximum, and a maximum of which one
  -- and a half times fits in an int64: a delivery writes to its own row, webhook and entry only; it counts a sent row's attempt; a row it marks failed is dead with no
  -- next attempt, or alive with one strictly later; it pauses the webhook for a time to come; and it
  -- sends to no URL that the guard refuses.
  pub deliver_webhook_log-IsMark : All (IsMark cfg w l) (deliver_webhook_log cfg w l)
  unfolding deliver_webhook_log
  deliver_webhook_log-IsMark = marks-loaded w.load

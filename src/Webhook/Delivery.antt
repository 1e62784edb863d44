-- ===== src/Webhook/Delivery.antt =====
-- `deliverWebhookLog` and `applyOnSuccessEntry` of internal/worker/webhooks.go, `floodPause` and
-- `retryAfterOf`. One call is a function of the row and of what the world answers; its effects are
-- the writes to the store and the pause of the webhook, in order. Log lines and metrics are left out.
pub mod Run
pub mod Status
pub mod Marks
use rssam.Common.{
  ℕ, zero, suc, ◌+◌, ◌*◌, Bool, true, false, not, ◌&&◌, ◌||◌, Option, none, some, List, [], ◌∷◌,
  ◌++◌, if◌then◌else◌, null,
}
use rssam.Common.Int.{ℤ, pos, ◌+ℤ◌, ◌-ℤ◌, ltb_ℤ, leb_ℤ, eq_ℤ, min_ℤ, max_ℤ}
use rssam.Common.Text.{Text, codes, text_eq, trim_space, to_lower}
use rssam.Poll.Schedule.{Duration, Time, second, minute, hour}
use rssam.Webhook.Backoff.{Settings, webhook_retry_schedule, webhook_http_retryable}
use rssam.Webhook.OnSuccess.{
  OnSuccess, none_action, hash, delete, mark_read, normalize_webhook_on_success,
  merge_on_success_actions, spelling,
}

-- The fields of a `storage.WebhookLog`.
pub record WebhookLog : Type 0 where
  pub id : ℕ
  pub webhook_id : ℕ
  pub entry_id : ℕ
  pub attempt : ℤ
  pub digest_minutes : ℤ
  pub peers : List ℕ

pub record Webhook : Type 0 where
  pub user_id : ℕ
  pub url : Text
  pub method : Text
  pub body_template : Text
  pub secret : Text
  pub enabled : Bool
  pub on_success_entry : Text
  pub kind : Text

pub record DeliveryContext : Type 0 where
  pub webhook : Webhook
  pub store_mode : Text

-- `LoadWebhookDeliveryContext`: the context, `ErrNotFound`, or another error.
pub data Loaded : Type 0 where
  loaded : DeliveryContext → Loaded
  not_found : Loaded
  load_failed : Loaded

-- An outgoing request: `BuildWebhookOutbound`, or method, URL and body of an HTTP webhook.
pub record Outbound : Type 0 where
  pub method : Text
  pub url : Text
  pub body : Text

-- A JSON or header number of seconds: whether it is positive, and what converting it to a
-- `time.Duration` gives.
pub record Seconds : Type 0 where
  pub is_positive : Bool
  pub duration : Duration

-- A response: its status, the redacted snippet of its body, and what a 429 says about waiting:
-- Telegram's `retry_after` where the body decodes, and the Retry-After header read as a number or as
-- a date.
pub record Response : Type 0 where
  pub status : ℤ
  pub snippet : Text
  pub telegram_retry_after : Option Seconds
  pub header_seconds : Option Seconds
  pub header_date : Option Time

-- Why a delivery is marked failed: the message of the row.
pub data Failure : Type 0 where
  context_not_found : Failure
  load_error : Failure
  webhook_disabled : Failure
  payload_error : Failure
  outbound_error : Failure
  template_error : Failure
  url_refused : Failure
  request_error : Failure
  transport_error : Failure
  provider_refused : Failure
  entries_not_found : Failure

-- The calls of the store that write, and the pause of a webhook.
pub data Effect : Type 0 where
  mark_sent : ℕ → ℤ → ℤ → Effect
  mark_failed : ℕ → Option ℤ → Failure → ℤ → Option Time → Bool → Effect
  pause : ℕ → Time → Effect
  send : Outbound → Bool → Effect
  mark_read_if_active : ℕ → ℕ → Effect
  strip_payload : ℕ → Effect
  delete_relay_entry : ℕ → ℕ → Effect
  mark_removed : ℕ → ℕ → Effect

-- What the world answers to one delivery. `guard` is nil where no SSRF guard is set; `provider_ok` is
-- the decoded answer of Telegram or Max, whose error is `none`; `outcome` is `EntryWebhookOutcome`.
pub record World : Type 0 where
  pub now : Time
  pub random : ℕ
  pub load : Loaded
  pub payload : Option Text
  pub outbound : Option Outbound
  pub rendered : Option Text
  pub guard : Option (Text → Bool)
  pub request_ok : Bool
  pub response : Option Response
  pub provider_ok : Text → Text → Option Bool
  pub outcome : Option (ℕ × OnSuccess)

abbrev pub webhook_disabled_park : Duration
webhook_disabled_park = pos (60 * second)

abbrev pub webhook_flood_default_wait : Duration
webhook_flood_default_wait = pos (10 * second)

abbrev pub webhook_flood_max_wait : Duration
webhook_flood_max_wait = pos hour

abbrev positive : Option Seconds → Option Duration
positive none = none
positive (some s) = if s.is_positive then some s.duration else none

abbrev until_date : Time → Option Time → Duration
until_date now none = webhook_flood_default_wait
until_date now (some at) = if ltb_ℤ now at then at -ℤ now else webhook_flood_default_wait

abbrev pub or_else {ℓ} : {A : Type ℓ} → Option A → A → A
or_else none d = d
or_else (some a) d = a

-- The wait before it is bounded.
abbrev pub asked_wait : Response → Time → Duration
asked_wait resp now =
    or_else (positive resp.telegram_retry_after)
      (or_else (positive resp.header_seconds) (until_date now resp.header_date))

unfoldable pub retry_after_of : Response → Time → Duration
retry_after_of resp now = min_ℤ (max_ℤ (asked_wait resp now) (pos second)) webhook_flood_max_wait

-- `NormalizeWebhookKind`, the empty text on its error.
unfoldable pub normalize_webhook_kind : Text → Text
normalize_webhook_kind raw =
    let s = to_lower (trim_space raw) in
    if text_eq s []
    then codes "http"
    else if text_eq s (codes "http") || text_eq s (codes "telegram") || text_eq s (codes "max")
    then s
    else []

abbrev pub is_provider : Text → Bool
is_provider kind = text_eq kind (codes "telegram") || text_eq kind (codes "max")

abbrev pub is_2xx : ℤ → Bool
is_2xx status = leb_ℤ (pos 200) status && leb_ℤ status (pos 299)

abbrev confirmed : Option Bool → Bool
confirmed none = false
confirmed (some ok) = ok

-- `ProviderDeliveryOK`, its first result.
unfoldable pub provider_delivery_ok : World → Text → ℤ → Text → Bool
provider_delivery_ok w kind status snippet =
    if is_2xx status
    then (if is_provider kind then confirmed (w.provider_ok kind snippet) else true)
    else false

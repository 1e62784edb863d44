-- ===== src/Webhook/Tests.antt =====
-- Runs of webhook deliveries, and the theorems applied to them.
use rssam.Common.{
  suc, ℕ, ◌+◌, ◌*◌, ◌≡◌, refl, true, false, Option, none, some, List, [], ◌∷◌, All, arith,
}
use rssam.Common.Int.{pos, ◌+ℤ◌, ◌-ℤ◌, ◌*ℤ◌, leb_ℤ, wrap64, div_ℤ}
use rssam.Common.Text.{Text, codes, trim_space, to_lower, lower}
use rssam.Poll.Schedule.{Time, second, minute, hour}
use rssam.Webhook.Backoff.{
  double_to, webhook_backoff, with_jitter, webhook_backoff_with_jitter, Settings, max_attempts,
  webhook_retry_schedule, webhook_http_retryable,
}
use rssam.Webhook.Backoff.Laws.{IsNext, webhook_retry_schedule_lem}
use rssam.Webhook.OnSuccess.{
  mark_read, hash, merge_on_success_actions, note_all, note, normalize_webhook_on_success,
}
use rssam.Webhook.Delivery.{
  WebhookLog, Webhook, loaded, Response, Effect, mark_sent, mark_failed, pause, send, strip_payload,
  World, provider_refused, url_refused, transport_error, retry_after_of, normalize_webhook_kind,
  provider_delivery_ok,
}
use rssam.Webhook.Delivery.Run.{
  record_webhook_failure, apply_on_success_entry, conclude, dispatch, prepare, deliver_webhook_log,
}
use rssam.Webhook.Delivery.Status.{statuses, statuses-deliver_webhook_log}
use rssam.Webhook.Delivery.Marks.{IsMark, deliver_webhook_log-IsMark}

delivery : Unit {0}
unfolding deliver_webhook_log prepare dispatch conclude apply_on_success_entry
    record_webhook_failure provider_delivery_ok normalize_webhook_kind retry_after_of
    webhook_retry_schedule webhook_http_retryable webhook_backoff_with_jitter webhook_backoff
    with_jitter double_to merge_on_success_actions note_all note normalize_webhook_on_success
    trim_space to_lower lower wrap64 div_ℤ ◌+ℤ◌ ◌-ℤ◌ ◌*ℤ◌
delivery = tt

abbrev pub settings : Settings
settings = record {
  webhook_max_attempts = pos 4;
  webhook_retry_base = pos (5 * second);
  webhook_retry_max = pos minute;
  dedup_only_storage = false;
}

abbrev pub hook : Text → Webhook
hook kind = record {
  user_id = 3;
  url = codes "https://example.org/hook";
  method = [];
  body_template = [];
  secret = codes "key";
  enabled = true;
  on_success_entry = codes "hash";
  kind = kind;
}

abbrev pub row : ℕ → WebhookLog
row made = record {
  id = 11;
  webhook_id = 5;
  entry_id = 70;
  attempt = pos made;
  digest_minutes = pos 0;
  peers = [];
}

abbrev pub now : Time
now = pos (100 * hour)

abbrev pub answer : ℕ → Response
answer status = record {
  status = pos status;
  snippet = codes "{}";
  telegram_retry_after = none;
  header_seconds = some (record { is_positive = true; duration = pos (30 * second) });
  header_date = none;
}

-- A guard that lets one URL through.
abbrev pub world : Option Response → World
world resp = record {
  now = now;
  random = 7;
  load = loaded (record { webhook = hook (codes "http"); store_mode = codes "full" });
  payload = some (codes "{}");
  outbound = none;
  rendered = none;
  guard = some (λ url. true);
  request_ok = true;
  response = resp;
  provider_ok = λ kind snippet. none;
  outcome = some (0, mark_read);
}

abbrev request : Effect
request =
    send
      (record { method = codes "POST"; url = codes "https://example.org/hook"; body = codes "{}" })
      true

-- Delivered: the row is sent, and the stronger of the two actions strips the payload.
delivered :
    deliver_webhook_log settings (world (some (answer 204))) (row 0)
    ≡ request ∷ mark_sent 11 (pos 1) (pos 204) ∷ strip_payload 70 ∷ []
unfolding delivery
delivered = refl

-- A 429 pauses the webhook and counts no attempt; a 500 at the last attempt is for good.
refused :
    (deliver_webhook_log settings (world (some (answer 429))) (row 2)
      ≡ request
        ∷ pause 5 (pos (100 * hour + 30 * second))
        ∷ mark_failed 11
            (some (pos 429))
            provider_refused
            (pos 2)
            (some (pos (100 * hour + 30 * second)))
            false
        ∷ [])
    × (deliver_webhook_log settings (world (some (answer 500))) (row 3)
        ≡ request ∷ mark_failed 11 (some (pos 500)) provider_refused (pos 4) none true ∷ [])
    × (deliver_webhook_log settings (world none) (row 0)
        ≡ request
          ∷ mark_failed 11 none transport_error
              (pos 1)
              (some (pos (100 * hour + 5 * second + 7)))
              false
          ∷ [])
unfolding delivery
refused = (refl, refl, refl)

guarded :
    deliver_webhook_log settings (record (world none) { guard = some (λ url. false) }) (row 0)
    ≡ mark_failed 11 none url_refused (pos 1) none true ∷ []
unfolding delivery
guarded = refl

statuses-deliver_webhook_log_example :
    statuses suc (deliver_webhook_log settings (world (some (answer 429))) (row 2)) ≡ suc (row 2).id
statuses-deliver_webhook_log_example =
    statuses-deliver_webhook_log settings (world (some (answer 429))) (row 2) suc

deliver_webhook_log-IsMark_example :
    All
      (IsMark settings (world (some (answer 429))) (row 2))
      (deliver_webhook_log settings (world (some (answer 429))) (row 2))
deliver_webhook_log-IsMark_example =
    deliver_webhook_log-IsMark settings (world (some (answer 429))) (row 2) (5 * second) minute refl
      refl (omega arith) (omega arith) (omega arith)

webhook_retry_schedule_lem_example :
    ((webhook_retry_schedule settings 7 now (pos 3)).1 ≡ leb_ℤ (max_attempts settings) (pos 3))
    × IsNext now (5 * second) minute (webhook_retry_schedule settings 7 now (pos 3))
webhook_retry_schedule_lem_example =
    webhook_retry_schedule_lem settings 7 now (pos 3) (5 * second) minute refl refl (omega arith)
      (omega arith) (omega arith)

abbrev actions : List Text
actions = codes " Mark_Read" ∷ codes "burn" ∷ codes "hash" ∷ []

merged : merge_on_success_actions actions ≡ hash
unfolding delivery
merged = refl

-- ===== src/Webhook/Digest/Tests.antt =====
-- Runs of the digests, and the theorems applied to them.
use rssam.Common.{
  ℕ, ◌+◌, ◌*◌, ◌≡◌, ◌≤◌, refl, true, false, not, ◌&&◌, ◌||◌, Option, none, some, List, [], ◌∷◌, All,
  arith, if◌then◌else◌, ◌==◌, ==_iff, count, any,
}
use rssam.Common.Int.{ℤ, pos, ◌+ℤ◌, ◌-ℤ◌, ◌*ℤ◌, wrap64, div_ℤ}
use rssam.Common.Text.{codes, trim_space, to_lower, lower}
use rssam.Common.Maps.{find, insert, delete}
use rssam.Poll.Schedule.{second, minute}
use rssam.Webhook.Backoff.{
  double_to, webhook_backoff, with_jitter, webhook_backoff_with_jitter, webhook_retry_schedule,
  webhook_http_retryable,
}
use rssam.Webhook.OnSuccess.{
  merge_on_success_actions, note_all, note, normalize_webhook_on_success, none_action,
}
use rssam.Webhook.Delivery.{
  WebhookLog, Response, provider_refused, retry_after_of, provider_delivery_ok,
}
use rssam.Webhook.Delivery.Run.{apply_on_success_entry}
use rssam.Webhook.Tests.{settings, hook, now, answer, world}
use rssam.Webhook.Digest.{ClaimPeers, first_loop, second_loop, group_digest_logs}
use rssam.Webhook.Digest.Grouping.{travels}
use rssam.Webhook.Digest.Rows.{IsClaimed}
use rssam.Webhook.Digest.Once.{IsClaim, travels-group_digest_logs}
use rssam.Webhook.Digest.Run.{
  DigestItem, DigestWorld, mark_logs_failed, digest_pause, digest_send, digest_failure,
  apply_digest_on_success, digest_conclude, digest_dispatch, deliver_webhook_digest,
}
use rssam.Webhook.Digest.Marks.{IsDigestMark, deliver_webhook_digest-IsDigestMark}
use rssam.Webhook.Digest.Status.{digest_statuses}

digest : Unit {0}
unfolding first_loop second_loop group_digest_logs digest_failure apply_digest_on_success
    digest_conclude digest_dispatch deliver_webhook_digest apply_on_success_entry
    provider_delivery_ok retry_after_of webhook_retry_schedule webhook_http_retryable
    webhook_backoff_with_jitter webhook_backoff with_jitter double_to merge_on_success_actions
    note_all note normalize_webhook_on_success trim_space to_lower lower wrap64 div_ℤ ◌+ℤ◌ ◌-ℤ◌ ◌*ℤ◌
    find insert delete
digest = tt

abbrev pub due_row : ℕ → ℕ → ℕ → WebhookLog
due_row id webhook minutes = record {
  id = id;
  webhook_id = webhook;
  entry_id = 70 + id;
  attempt = pos 0;
  digest_minutes = pos minutes;
  peers = [];
}

-- Webhook 5 has digests of an hour, webhook 6 none; row `n` of webhook 5 is odd.
abbrev due_rows : List WebhookLog
due_rows = due_row 11 5 60 ∷ due_row 12 6 0 ∷ due_row 13 5 60 ∷ due_row 14 6 0 ∷ []

abbrev owner : ℕ → ℕ
owner n = if n == 11 || n == 13 || n == 15 then 5 else 6

abbrev minutes_of : ℕ → ℤ
minutes_of w = if w == 5 then pos 60 else pos 0

-- The store has one more row of webhook 5.
abbrev pub peers : ClaimPeers
peers w ids limit = if w == 5 && not (any (λ i. i == 15) ids) then some (15 ∷ []) else none

grouped_runs :
    (group_digest_logs peers due_rows
      ≡ record (due_row 11 5 60) { peers = 11 ∷ 13 ∷ 15 ∷ [] }
        ∷ due_row 12 6 0
        ∷ due_row 14 6 0
        ∷ [])
    × (travels 13 (group_digest_logs peers due_rows) ≡ 1)
unfolding digest
grouped_runs = (refl, refl)

not_among : (ids : List ℕ) → any (λ i. i == 15) ids ≡ false → count 15 ids ≡ 0
not_among [] h = refl
not_among (i ∷ ids) h = ground (arith, not_among ids)

peers-IsClaim : (c : WebhookLog) → IsClaim minutes_of owner peers c
peers-IsClaim c n =
    ground (arith, not_among c.peers, ==_iff 15 n, ==_iff n 15, ==_iff c.webhook_id 5)

due_rows-IsClaimed : All (IsClaimed minutes_of owner) due_rows
due_rows-IsClaimed = ((refl, refl), ((refl, refl), ((refl, refl), ((refl, refl), tt))))

travels-group_digest_logs_example : travels 15 (group_digest_logs peers due_rows) ≤ 1
travels-group_digest_logs_example =
    travels-group_digest_logs minutes_of owner peers 15 due_rows due_rows-IsClaimed (omega arith)
      peers-IsClaim

abbrev items : List DigestItem
items =
    record { log_id = 11; entry_id = 81; store_mode = []; outcome = some (0, none_action) }
    ∷ record { log_id = 13; entry_id = 83; store_mode = []; outcome = none }
    ∷ []

abbrev carrier : WebhookLog
carrier = record (due_row 11 5 60) { peers = 11 ∷ 13 ∷ [] }

abbrev pub digest_world : Option Response → DigestWorld
digest_world resp = record {
  world = world resp;
  load = some (hook (codes "http"), items);
  built = some (
    (record { method = codes "POST"; url = codes "https://example.org/hook"; body = codes "{}" }),
    codes "http",
  );
}

digest_runs :
    (deliver_webhook_digest settings (digest_world (some (answer 429))) carrier
      ≡ digest_send
          (record {
            method = codes "POST";
            url = codes "https://example.org/hook";
            body = codes "{}";
          })
          true
        ∷ digest_pause 5 (now +ℤ pos (30 * second))
        ∷ mark_logs_failed
            (11 ∷ 13 ∷ [])
            (some (pos 429))
            provider_refused
            (some (now +ℤ pos (30 * second)))
            false
            false
        ∷ [])
    × (digest_statuses (deliver_webhook_digest settings (digest_world (some (answer 200))) carrier)
        ≡ 1)
unfolding digest
digest_runs = (refl, refl)

deliver_webhook_digest-IsDigestMark_example :
    All
      (IsDigestMark settings (digest_world (some (answer 200))) carrier)
      (deliver_webhook_digest settings (digest_world (some (answer 200))) carrier)
deliver_webhook_digest-IsDigestMark_example =
    deliver_webhook_digest-IsDigestMark settings (digest_world (some (answer 200))) carrier
      (5 * second) minute refl refl (omega arith) (omega arith) (omega arith)

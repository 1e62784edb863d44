-- ===== src/Worker/Dispatch.antt =====
-- `webhookDispatchLoop`, `webhookWorkerLoop` and the two `marked` stores of internal/worker/webhooks.go
-- and webhook_digest.go: the dispatcher claims rows and hands them through a channel to the workers. A
-- step is one action of one goroutine; a run is any sequence of them.
pub mod Rows
pub mod Marked
pub mod Safety
pub mod Drain
pub mod Tests
use rssam.Common.{
  ℕ, zero, suc, ◌+◌, ◌*◌, ◌≤◌, ◌<◌, ◌≡◌, Bool, true, false, Option, none, some, List, [], ◌∷◌, ◌++◌,
  if◌then◌else◌, length, count,
}
use rssam.Common.Int.{pos}
use rssam.Common.Maps.{id_key}
use rssam.Poll.Schedule.{Time, second}
use rssam.Poll.NextCheck.{is_zero}
use rssam.Webhook.Backoff.{Settings}
use rssam.Webhook.Delivery.{
  WebhookLog, Effect, mark_sent, mark_failed, pause, send, mark_read_if_active, strip_payload,
  delete_relay_entry, mark_removed, World,
}
use rssam.Webhook.Delivery.Run.{deliver_webhook_log}
use rssam.Webhook.Digest.{is_digest, ClaimPeers, group_digest_logs}
use rssam.Webhook.Digest.Run.{
  DigestWorld, DigestEffect, mark_logs_sent, mark_logs_failed, digest_pause, digest_send, on_entry,
  deliver_webhook_digest,
}
use rssam.Worker.Inflight.{InflightPolls, init, start, done, forget, exclude}
use rssam.Worker.Inflight.Exclusion.{mentions}
use rssam.Worker.Pauses.{DuePauses, active}
use rssam.Worker.Pauses

-- An effect of a delivery of one row, or of a digest.
pub data Deed : Type 0 where
  log_deed : Effect → Deed
  digest_deed : DigestEffect → Deed

abbrev pub deeds {ℓ} : {A : Type ℓ} → (A → Deed) → List A → List Deed
deeds f [] = []
deeds f (e ∷ es) = f e ∷ deeds f es

-- What a worker does with a row.
abbrev pub work : Settings → World → DigestWorld → WebhookLog → List Deed
work cfg w dw l =
    if is_digest l
    then deeds digest_deed (deliver_webhook_digest cfg dw l)
    else deeds log_deed (deliver_webhook_log cfg w l)

-- A worker with its row, what is left to do, and `stored`.
pub record Busy : Type 0 where
  pub job : WebhookLog
  pub left : List Deed
  pub stored : Bool

-- `markedDelivery` and `markedDigest`: `stored` after an effect, given what the store answers.
abbrev pub stored_after : Bool → Deed → Bool → Bool
stored_after answer (log_deed (mark_sent id attempt status)) stored = answer
stored_after answer (log_deed (mark_failed id status why attempt next dead)) stored = answer
stored_after answer (log_deed (pause id until)) stored = stored
stored_after answer (log_deed (send out signed)) stored = stored
stored_after answer (log_deed (mark_read_if_active user entry)) stored = stored
stored_after answer (log_deed (strip_payload entry)) stored = stored
stored_after answer (log_deed (delete_relay_entry entry id)) stored = stored
stored_after answer (log_deed (mark_removed user entry)) stored = stored
stored_after answer (digest_deed (mark_logs_sent ids status)) stored = answer
stored_after answer (digest_deed (mark_logs_failed ids status why next dead counted)) stored =
    answer
stored_after answer (digest_deed (digest_pause id until)) stored = stored
stored_after answer (digest_deed (digest_send out signed)) stored = stored
stored_after answer (digest_deed (on_entry e)) stored = stored

-- `pausedHooks` after an effect.
abbrev pub paused_after : Deed → DuePauses ℕ → DuePauses ℕ
paused_after (log_deed (pause id until)) p = Pauses.pause id until p
paused_after (log_deed (mark_sent id attempt status)) p = p
paused_after (log_deed (mark_failed id status why attempt next dead)) p = p
paused_after (log_deed (send out signed)) p = p
paused_after (log_deed (mark_read_if_active user entry)) p = p
paused_after (log_deed (strip_payload entry)) p = p
paused_after (log_deed (delete_relay_entry entry id)) p = p
paused_after (log_deed (mark_removed user entry)) p = p
paused_after (digest_deed (digest_pause id until)) p = Pauses.pause id until p
paused_after (digest_deed (mark_logs_sent ids status)) p = p
paused_after (digest_deed (mark_logs_failed ids status why next dead counted)) p = p
paused_after (digest_deed (digest_send out signed)) p = p
paused_after (digest_deed (on_entry e)) p = p

abbrev pub act_of : Bool → Deed → List Deed → Busy → Busy
act_of answer deed left b = record b { left = left; stored = stored_after answer deed b.stored }

-- After the delivery.
abbrev pub released : Time → Busy → InflightPolls → InflightPolls
released at b p = if b.stored then forget b.job.webhook_id p else done b.job.webhook_id at p

-- The sets of the runner, the rows that the dispatcher has claimed and not yet marked, when it claimed
-- them, the row it waits to send, the channel, and the busy workers.
pub record Hooks : Type 0 where
  pub inflight : InflightPolls
  pub paused : DuePauses ℕ
  pub grouped : List WebhookLog
  pub claimed_at : Time
  pub sending : Option WebhookLog
  pub queue : List WebhookLog
  pub running : List Busy

abbrev pub webhooks_of : List WebhookLog → List ℕ
webhooks_of [] = []
webhooks_of (l ∷ logs) = l.webhook_id ∷ webhooks_of logs

abbrev pub excluded : Time → Hooks → List ℕ
excluded now s = (exclude now s.inflight).1 ++ (active now s.paused).1

-- What `ClaimDueWebhookLogs` promises: one row per webhook, and none of a webhook that is excluded.
pub record Claims (now : Time) (s : Hooks) (logs : List WebhookLog) : Type 0 where
  pub single : (webhook : ℕ) → count webhook (webhooks_of logs) ≤ 1
  pub free :
      (webhook : ℕ)
      → mentions webhook (excluded now s) ≡ true
      → count webhook (webhooks_of logs) ≡ 0

-- At the start of the runner.
abbrev pub start_state : Hooks
start_state = record {
  inflight = init (pos 0) (pos (30 * second));
  paused = [];
  grouped = [];
  claimed_at = pos 0;
  sending = none;
  queue = [];
  running = [];
}

-- The actions: the dispatcher claims, marks the next row, and sends it where the channel has room; a
-- free worker receives a row; a busy one has an effect, or ends the delivery. `pool` is the number of
-- workers, and half the capacity of the channel.
pub data Step (cfg : Settings) (pool : ℕ) (s : Hooks) : Hooks → Type 0 where
  claim :
      (now at : Time) (logs : List WebhookLog) (peers : ClaimPeers)
      → s.grouped ≡ []
      → s.sending ≡ none
      → Claims now s logs
      → Step cfg pool s (record s {
        inflight = (exclude now s.inflight).0;
        paused = (active now s.paused).0;
        grouped = group_digest_logs peers logs;
        claimed_at = at;
      })
  mark :
      (l : WebhookLog) (rest : List WebhookLog)
      → s.sending ≡ none
      → s.grouped ≡ l ∷ rest
      → Step cfg pool s (record s {
        inflight = start l.webhook_id s.claimed_at s.inflight;
        grouped = rest;
        sending = some l;
      })
  transmit :
      (l : WebhookLog)
      → s.sending ≡ some l
      → length s.queue < pool * 2
      → Step cfg pool s (record s { sending = none; queue = s.queue ++ l ∷ [] })
  receive :
      (l : WebhookLog) (rest : List WebhookLog) (w : World) (dw : DigestWorld)
      → s.queue ≡ l ∷ rest
      → length s.running < pool
      → Step cfg pool s (record s {
        queue = rest;
        running = record { job = l; left = work cfg w dw l; stored = false } ∷ s.running;
      })
  act :
      (before after : List Busy) (b : Busy) (deed : Deed) (left : List Deed) (answer : Bool)
      → s.running ≡ before ++ b ∷ after
      → b.left ≡ deed ∷ left
      → Step cfg pool s (record s {
        paused = paused_after deed s.paused;
        running = before ++ act_of answer deed left b ∷ after;
      })
  finish :
      (before after : List Busy) (b : Busy) (at : Time)
      → s.running ≡ before ++ b ∷ after
      → b.left ≡ []
      → is_zero at ≡ false
      → Step cfg pool s
          (record s { inflight = released at b s.inflight; running = before ++ after })

-- The states that the runner can reach.
pub data Reach (cfg : Settings) (pool : ℕ) (s : Hooks) : Hooks → Type 0 where
  here : Reach cfg pool s s
  next : {t u : Hooks} → Reach cfg pool s t → Step cfg pool t u → Reach cfg pool s u

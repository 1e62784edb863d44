-- ===== src/Worker/Dispatch/Marked.antt =====
-- The invariant of the dispatcher, and what each call on the set of marked webhooks does to the marks.
use rssam.Common.{
  ℕ, ◌+◌, ◌≤◌, ◌≡◌, refl, ◌∙◌, Bool, true, false, not, Option, none, some, List, [], ◌∷◌, ◌++◌,
  if◌then◌else◌, ◌==◌, count, arith, Bool-cases, inl, inr,
}
use rssam.Common.Int.{pos}
use rssam.Common.Maps.{id_key, find, IsMap, find-insert, find-delete, find-keep, kept}
use rssam.Poll.Schedule.{Time}
use rssam.Poll.NextCheck.{is_zero}
use rssam.Webhook.Delivery.{WebhookLog}
use rssam.Worker.Inflight.{
  InflightPoll, InflightPolls, start, done, forget, exclude, done_call, forget_call, after_call,
}
use rssam.Worker.Inflight.Exclusion.{
  mentions, is_busy, is_over, mentions-exclude, exclude_loop-keep, after_call-IsMap,
  after_call-stale, find-finished,
}
use rssam.Worker.Dispatch.{Busy, Hooks, webhooks_of, excluded, released}
use rssam.Worker.Dispatch.Rows.{mentions-append}

abbrev pub jobs_of : List Busy → List ℕ
jobs_of [] = []
jobs_of (b ∷ running) = b.job.webhook_id ∷ jobs_of running

abbrev pub sent_of : Option WebhookLog → List ℕ
sent_of none = []
sent_of (some l) = l.webhook_id ∷ []

-- The rows of a webhook that are marked: at the channel, in it, or with a worker.
abbrev pub handed : ℕ → Hooks → ℕ
handed w s =
    count w (sent_of s.sending) + count w (webhooks_of s.queue) + count w (jobs_of s.running)

-- The rows of a webhook that are on their way.
abbrev pub under_way : ℕ → Hooks → ℕ
under_way w s = count w (webhooks_of s.grouped) + handed w s

abbrev pub is_running : Option InflightPoll → Bool
is_running none = false
is_running (some e) = is_zero e.done_at

abbrev pub marked : ℕ → InflightPolls → Bool
marked w p = is_running (find w p.polls)

-- A webhook has one row on its way at most, and is marked where it is handed on.
pub record Inv (s : Hooks) : Type 0 where
  pub is_map : IsMap s.inflight.polls
  pub never_stale : s.inflight.stale_after ≡ pos 0
  pub one : (w : ℕ) → under_way w s ≤ 1
  pub is_marked : (w : ℕ) → 1 ≤ handed w s → marked w s.inflight ≡ true

pub jobs_of-append :
    (w : ℕ) (xs ys : List Busy)
    → count w (jobs_of (xs ++ ys)) ≡ count w (jobs_of xs) + count w (jobs_of ys)
jobs_of-append w [] ys = omega arith
jobs_of-append w (b ∷ xs) ys = ground (arith, jobs_of-append w xs ys)

running_is_kept :
    (p : InflightPolls) (now : Time) (o : Option InflightPoll) (w : ℕ)
    → is_running o ≡ true
    → is_running (kept (λ id e. not (is_over p.finished_grace now e)) w o) ≡ true
running_is_kept p now none w h = cc
running_is_kept p now (some e) w h = ground arith

pub marked-exclude :
    (p : InflightPolls) (now : Time) (w : ℕ)
    → IsMap p.polls
    → marked w p ≡ true
    → marked w (exclude now p).0 ≡ true
unfolding exclude
marked-exclude p now w h running =
    rw
      (
        exclude_loop-keep p.stale_after p.finished_grace now p.polls,
        find-keep (λ i f. not (is_over p.finished_grace now f)) w p.polls h,
      )
      (running_is_kept p now (find w p.polls) w running)

running_is_busy :
    (p : InflightPolls) (now : Time) (o : Option InflightPoll)
    → p.stale_after ≡ pos 0
    → is_running o ≡ true
    → is_busy p now o ≡ true
running_is_busy p now none never running = cc
running_is_busy p now (some e) never running = rw never (ground arith)

-- A marked webhook is among those that a claim leaves out.
pub excluded_of_marked :
    (s : Hooks) (now : Time) (w : ℕ)
    → Inv s
    → marked w s.inflight ≡ true
    → mentions w (excluded now s) ≡ true
excluded_of_marked s now w inv running = mentions-append w _ _ (
    mentions-exclude s.inflight now w inv.is_map
    ∙ running_is_busy s.inflight now (find w s.inflight.polls) inv.never_stale running)

pub marked-start :
    (p : InflightPolls) (w v : ℕ) (at : Time)
    → marked w (start v at p) ≡ (if v == w then true else marked w p)
unfolding start
marked-start p w v at =
    ground (arith, find-insert v w (record { started_at = at; done_at = pos 0 }) p.polls)

marked-forget :
    (p : InflightPolls) (w v : ℕ) → (v == w) ≡ false → marked w (forget v p) ≡ marked w p
unfolding forget
marked-forget p w v other = ground (arith, find-delete v w p.polls)

marked-done :
    (p : InflightPolls) (w v : ℕ) (at : Time)
    → (v == w) ≡ false
    → marked w (done v at p) ≡ marked w p
unfolding done
marked-done p w v at other = rw (find-finished w v at (find v p.polls) p.polls other) refl

pub marked-released :
    (p : InflightPolls) (w : ℕ) (at : Time) (b : Busy)
    → (b.job.webhook_id == w) ≡ false
    → marked w (released at b p) ≡ marked w p
marked-released p w at b other = elim (Bool-cases b.stored) [
  | inl stored ↦ rw stored (marked-forget p w b.job.webhook_id other)
  | inr failed ↦ rw failed (marked-done p w b.job.webhook_id at other)
]

pub released-IsMap :
    (p : InflightPolls) (at : Time) (b : Busy)
    → IsMap p.polls
    → IsMap (released at b p).polls × ((released at b p).stale_after ≡ p.stale_after)
unfolding after_call
released-IsMap p at b h = elim (Bool-cases b.stored) [
  | inl stored ↦ rw stored (
    after_call-IsMap (forget_call b.job.webhook_id) p h,
    after_call-stale (forget_call b.job.webhook_id) p,
  )
  | inr failed ↦ rw failed (
    after_call-IsMap (done_call b.job.webhook_id at) p h,
    after_call-stale (done_call b.job.webhook_id at) p,
  )
]

pub jobs_of-split :
    (w : ℕ) (running before after : List Busy) (b : Busy)
    → running ≡ before ++ b ∷ after
    → count w (jobs_of running)
      ≡ count w (b.job.webhook_id ∷ []) + count w (jobs_of (before ++ after))
jobs_of-split w running before after b h =
    rw h (ground (arith, jobs_of-append w before (b ∷ after), jobs_of-append w before after))

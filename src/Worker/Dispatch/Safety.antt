-- ===== src/Worker/Dispatch/Safety.antt =====
-- In every state that the runner reaches, a webhook has one row on its way at most: the dispatcher and
-- the workers act as a table of locks.
use rssam.Common.{
  ℕ, ◌+◌, ◌≤◌, ◌≡◌, refl, ◌∙◌, false, none, some, List, [], ◌∷◌, ◌++◌, ◌==◌, ==_iff, count, arith,
}
use rssam.Common.Maps.{id_key}
use rssam.Poll.Schedule.{Time}
use rssam.Webhook.Backoff.{Settings}
use rssam.Webhook.Delivery.{WebhookLog}
use rssam.Webhook.Digest.{group_digest_logs, ClaimPeers}
use rssam.Worker.Inflight.{init, start_call, exclude_call, after_call}
use rssam.Worker.Inflight.Exclusion.{after_call-IsMap, after_call-stale}
use rssam.Worker.Dispatch.{
  Busy, Hooks, webhooks_of, Claims, start_state, Step, claim, mark, transmit, receive, act, finish,
  Reach, here, next, act_of,
}
use rssam.Worker.Dispatch.Rows.{webhooks_of-group, webhooks_of-append}
use rssam.Worker.Dispatch.Marked.{
  handed, under_way, jobs_of, Inv, excluded_of_marked, marked-start, marked-released,
  released-IsMap, jobs_of-split, marked-exclude,
}

claim_rows :
    (s : Hooks) (now : Time) (logs : List WebhookLog) (peers : ClaimPeers) (w : ℕ)
    → Inv s
    → Claims now s logs
    → count w (webhooks_of (group_digest_logs peers logs)) + handed w s ≤ 1
claim_rows s now logs peers w inv claims = ground (
  arith,
  webhooks_of-group w peers logs,
  claims.single w,
  claims.free w,
  excluded_of_marked s now w inv,
  inv.is_marked w,
  inv.one w,
)

-- The rows of a webhook that are handed on, after an action that hands none on.
handed-transmit :
    (s : Hooks) (l : WebhookLog) (w : ℕ)
    → s.sending ≡ some l
    → handed w (record s { sending = none; queue = s.queue ++ l ∷ [] }) ≡ handed w s
handed-transmit s l w waiting = ground (arith, webhooks_of-append w s.queue (l ∷ []))

jobs_of-act :
    (w : ℕ) (running before after : List Busy) (b c : Busy)
    → running ≡ before ++ b ∷ after
    → c.job.webhook_id ≡ b.job.webhook_id
    → count w (jobs_of (before ++ c ∷ after)) ≡ count w (jobs_of running)
jobs_of-act w running before after b c busy same = ground (
  arith,
  jobs_of-split w running before after b busy,
  jobs_of-split w (before ++ c ∷ after) before after c refl,
)

module _ {cfg : Settings} {pool : ℕ} where
  Step-Inv : {s t : Hooks} → Inv s → Step cfg pool s t → Inv t
  unfolding after_call
  Step-Inv {s} inv (claim now at logs peers empty idle claims) = record {
    is_map = after_call-IsMap (exclude_call now) s.inflight inv.is_map;
    never_stale = after_call-stale (exclude_call now) s.inflight ∙ inv.never_stale;
    one = λ w. claim_rows s now logs peers w inv claims;
    is_marked = λ w h. marked-exclude s.inflight now w inv.is_map (inv.is_marked w h);
  }
  Step-Inv {s} inv (mark l rest idle first) = record {
    is_map = after_call-IsMap (start_call l.webhook_id s.claimed_at) s.inflight inv.is_map;
    never_stale =
        after_call-stale (start_call l.webhook_id s.claimed_at) s.inflight ∙ inv.never_stale;
    one = λ w. ground (arith, inv.one w);
    is_marked =
        λ w h. ground (arith, marked-start s.inflight w l.webhook_id s.claimed_at, inv.is_marked w);
  }
  Step-Inv {s} inv (transmit l waiting room) = record {
    is_map = inv.is_map;
    never_stale = inv.never_stale;
    one = λ w. omega (arith, handed-transmit s l w waiting, inv.one w);
    is_marked = λ w h. inv.is_marked w (omega (arith, handed-transmit s l w waiting, h));
  }
  Step-Inv {s} inv (receive l rest wo dw first free) = record {
    is_map = inv.is_map;
    never_stale = inv.never_stale;
    one = λ w. ground (arith, inv.one w);
    is_marked = λ w h. ground (arith, inv.is_marked w);
  }
  Step-Inv {s} inv (act before after b deed left answer busy todo) = record {
    is_map = inv.is_map;
    never_stale = inv.never_stale;
    one = λ w. ground (
      arith,
      jobs_of-act w s.running before after b (act_of answer deed left b) busy refl,
      inv.one w,
    );
    is_marked = λ w h. ground (
      arith,
      jobs_of-act w s.running before after b (act_of answer deed left b) busy refl,
      inv.is_marked w,
    );
  }
  Step-Inv {s} inv (finish before after b at busy over real) = record {
    is_map = (released-IsMap s.inflight at b inv.is_map).0;
    never_stale = (released-IsMap s.inflight at b inv.is_map).1 ∙ inv.never_stale;
    one = λ w. ground (arith, jobs_of-split w s.running before after b busy, inv.one w);
    is_marked = λ w h. ground (
      arith,
      jobs_of-split w s.running before after b busy,
      inv.one w,
      inv.is_marked w,
      marked-released s.inflight w at b,
    );
  }

start-Inv : Inv start_state
unfolding init
start-Inv = record {
  is_map = tt;
  never_stale = refl;
  one = λ w. omega arith;
  is_marked = λ w h. absurd (omega (arith, h));
}

Reach-Inv : {cfg : Settings} {pool : ℕ} {s : Hooks} → Reach cfg pool start_state s → Inv s
Reach-Inv here = start-Inv
Reach-Inv (next r st) = Step-Inv (Reach-Inv r) st

-- Whatever the store, the requests and the schedule of the goroutines do, in every state that the
-- runner reaches a webhook has at most one row that is claimed, waits in the channel or is with a
-- worker; this for claims of one row per webhook that leave the excluded webhooks out.
pub one_under_way :
    {cfg : Settings} {pool : ℕ} {s : Hooks}
    → Reach cfg pool start_state s
    → (w : ℕ) → under_way w s ≤ 1
one_under_way r w = (Reach-Inv r).one w

-- The table of locks, a number of holders for each webhook: an action acquires locks that are free, or
-- releases one, or does neither.
pub data Move (a b : ℕ → ℕ) : Type 0 where
  acquires : ((w : ℕ) → a w ≤ b w) → ((w : ℕ) → b w ≤ 1) → Move a b
  releases : (v : ℕ) → a v ≡ 1 → b v ≡ 0 → ((w : ℕ) → (w == v) ≡ false → b w ≡ a w) → Move a b
  stays : ((w : ℕ) → b w ≡ a w) → Move a b

abbrev pub holders : Hooks → ℕ → ℕ
holders s w = under_way w s

-- The dispatcher and its workers refine a table of locks: in every state that the runner reaches, each
-- action acquires the locks of webhooks that have no holder, or releases that of one webhook, or
-- leaves them.
pub Step-Move :
    {cfg : Settings} {pool : ℕ} {s t : Hooks}
    → Reach cfg pool start_state s
    → Step cfg pool s t
    → Move (holders s) (holders t)
Step-Move {s} r (claim now at logs peers empty idle claims) =
    acquires (λ w. ground arith) (λ w. claim_rows s now logs peers w (Reach-Inv r) claims)
Step-Move {s} r (mark l rest idle first) = stays (λ w. ground arith)
Step-Move {s} r (transmit l waiting room) =
    stays (λ w. omega (arith, handed-transmit s l w waiting))
Step-Move {s} r (receive l rest wo dw first free) = stays (λ w. ground arith)
Step-Move {s} r (act before after b deed left answer busy todo) = stays (λ w.
    ground (arith, jobs_of-act w s.running before after b (act_of answer deed left b) busy refl))
Step-Move {s} r (finish before after b at busy over real) =
    let v = b.job.webhook_id in
    releases v
      (ground
        (arith, jobs_of-split v s.running before after b busy, (Reach-Inv r).one v, ==_iff v v))
      (ground
        (arith, jobs_of-split v s.running before after b busy, (Reach-Inv r).one v, ==_iff v v))
      (λ w other.
        ground (arith, jobs_of-split w s.running before after b busy, ==_iff w v, ==_iff v w))

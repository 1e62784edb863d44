-- ===== src/Worker/Dispatch/Drain.antt =====
-- No row waits for ever by itself: from every state the goroutines can finish what is on its way.
use rssam.Common.{
  ℕ, ◌<◌, ◌≡◌, refl, ◌∙◌, true, false, Option, none, some, List, [], ◌∷◌, ◌++◌, arith,
}
use rssam.Common.Int.{pos}
use rssam.Webhook.Backoff.{Settings}
use rssam.Webhook.Delivery.{WebhookLog, World}
use rssam.Webhook.Digest.Run.{DigestWorld}
use rssam.Worker.Inflight.{start}
use rssam.Worker.Dispatch.{
  Busy, Deed, Hooks, mark, transmit, receive, act, finish, Reach, here, next, released, act_of,
  paused_after, work,
}

pub Reach-trans :
    {cfg : Settings} {pool : ℕ} {s t u : Hooks}
    → Reach cfg pool s t
    → Reach cfg pool t u
    → Reach cfg pool s u
Reach-trans r here = r
Reach-trans r (next q st) = next (Reach-trans r q) st

-- Nothing is on its way.
pub record IsQuiet (s : Hooks) : Type 0 where
  pub none_grouped : s.grouped ≡ []
  pub none_sending : s.sending ≡ none
  pub none_queued : s.queue ≡ []
  pub none_running : s.running ≡ []

-- A state that is reached, with the rows of the dispatcher and of the channel as given and no worker
-- busy beyond some.
record Later (cfg : Settings) (pool : ℕ) (s : Hooks) (grouped : List WebhookLog)
    (sending : Option WebhookLog) (queue : List WebhookLog) (running : List Busy) : Type 0 where
  state : Hooks
  reach : Reach cfg pool s state
  is_grouped : state.grouped ≡ grouped
  is_sending : state.sending ≡ sending
  is_queue : state.queue ≡ queue
  is_running : state.running ≡ running

module _ (cfg : Settings) (pool : ℕ) where
  after-Later :
      {s t : Hooks} {g : List WebhookLog} {o : Option WebhookLog} {q : List WebhookLog}
      {rs : List Busy}
      → Reach cfg pool s t
      → Later cfg pool t g o q rs
      → Later cfg pool s g o q rs
  after-Later r l = record {
    state = l.state;
    reach = Reach-trans r l.reach;
    is_grouped = l.is_grouped;
    is_sending = l.is_sending;
    is_queue = l.is_queue;
    is_running = l.is_running;
  }

  -- A worker ends its delivery.
  settle :
      (left : List Deed) (s : Hooks) (b : Busy) (rest : List Busy)
      → s.running ≡ b ∷ rest
      → b.left ≡ left
      → Later cfg pool s s.grouped s.sending s.queue rest
  settle [] s b rest busy over = record {
    state = record s { inflight = released (pos 1) b s.inflight; running = rest };
    reach = next here (finish [] rest b (pos 1) busy over refl);
    is_grouped = refl;
    is_sending = refl;
    is_queue = refl;
    is_running = refl;
  }
  settle (deed ∷ left) s b rest busy todo =
      after-Later (next here (act [] rest b deed left true busy todo)) (
        settle left
          (record s {
            paused = paused_after deed s.paused;
            running = act_of true deed left b ∷ rest;
          })
          (act_of true deed left b) rest refl refl)

  settle_all :
      (running : List Busy) (s : Hooks)
      → s.running ≡ running
      → Later cfg pool s s.grouped s.sending s.queue []
  settle_all [] s h = record {
    state = s;
    reach = here;
    is_grouped = refl;
    is_sending = refl;
    is_queue = refl;
    is_running = h;
  }
  settle_all (b ∷ running) s h =
      let l = settle b.left s b running h refl in
      let m = settle_all running l.state l.is_running in
      record {
        state = m.state;
        reach = Reach-trans l.reach m.reach;
        is_grouped = m.is_grouped ∙ l.is_grouped;
        is_sending = m.is_sending ∙ l.is_sending;
        is_queue = m.is_queue ∙ l.is_queue;
        is_running = m.is_running;
      }

  module _ (w : World) (dw : DigestWorld) (some_worker : 0 < pool) where
    -- The channel runs empty.
    deliver_all :
        (queue : List WebhookLog) (s : Hooks)
        → s.queue ≡ queue
        → s.running ≡ []
        → Later cfg pool s s.grouped s.sending [] []
    deliver_all [] s h idle = record {
      state = s;
      reach = here;
      is_grouped = refl;
      is_sending = refl;
      is_queue = h;
      is_running = idle;
    }
    deliver_all (l ∷ queue) s h idle =
        let b : Busy = record { job = l; left = work cfg w dw l; stored = false } in
        let s1 : Hooks = record s { queue = queue; running = b ∷ s.running } in
        let m = settle_all s1.running s1 refl in
        let n = deliver_all queue m.state m.is_queue m.is_running in
        record {
          state = n.state;
          reach =
              Reach-trans (next here (receive l queue w dw h (rw idle some_worker)))
                (Reach-trans m.reach n.reach);
          is_grouped = n.is_grouped ∙ m.is_grouped;
          is_sending = n.is_sending ∙ m.is_sending;
          is_queue = n.is_queue;
          is_running = n.is_running;
        }

    -- The dispatcher gets rid of the row it waits to send.
    send_all :
        (sending : Option WebhookLog) (s : Hooks)
        → s.sending ≡ sending
        → s.queue ≡ []
        → s.running ≡ []
        → Later cfg pool s s.grouped none [] []
    send_all none s h empty idle = record {
      state = s;
      reach = here;
      is_grouped = refl;
      is_sending = h;
      is_queue = empty;
      is_running = idle;
    }
    send_all (some l) s h empty idle =
        let s1 : Hooks = record s { sending = none; queue = s.queue ++ l ∷ [] } in
        after-Later (next here (transmit l h (rw empty (omega (arith, some_worker)))))
          (deliver_all s1.queue s1 refl idle)

    group_all :
        (grouped : List WebhookLog) (s : Hooks)
        → s.grouped ≡ grouped
        → s.sending ≡ none
        → s.queue ≡ []
        → s.running ≡ []
        → Later cfg pool s [] none [] []
    group_all [] s h unsent empty idle = record {
      state = s;
      reach = here;
      is_grouped = h;
      is_sending = unsent;
      is_queue = empty;
      is_running = idle;
    }
    group_all (l ∷ grouped) s h unsent empty idle =
        let s1 : Hooks = record s {
          inflight = start l.webhook_id s.claimed_at s.inflight;
          grouped = grouped;
          sending = some l;
        } in
        let m = send_all (some l) s1 refl empty idle in
        after-Later (Reach-trans (next here (mark l grouped unsent h)) m.reach)
          (group_all grouped m.state m.is_grouped m.is_sending m.is_queue m.is_running)

    -- From every state of a pool with a worker, whatever the deliveries answer, actions of the
    -- dispatcher and the workers lead to a state with nothing on its way: no row stays in the channel
    -- or with a worker for want of an action.
    drains : (s : Hooks) → (t : Hooks) × Reach cfg pool s t × IsQuiet t
    drains s =
        let a = settle_all s.running s refl in
        let b = deliver_all a.state.queue a.state refl a.is_running in
        let c = send_all b.state.sending b.state refl b.is_queue b.is_running in
        let d = group_all c.state.grouped c.state refl c.is_sending c.is_queue c.is_running in
        (
          d.state,
          Reach-trans a.reach (Reach-trans b.reach (Reach-trans c.reach d.reach)),
          record {
            none_grouped = d.is_grouped;
            none_sending = d.is_sending;
            none_queued = d.is_queue;
            none_running = d.is_running;
          },
        )

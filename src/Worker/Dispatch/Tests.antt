-- ===== src/Worker/Dispatch/Tests.antt =====
-- A run of the dispatcher and its workers, and the theorems applied to it.
use rssam.Common.{◌≤◌, refl, none, some, List, [], ◌∷◌, arith}
use rssam.Common.Int.{◌-ℤ◌, ◌+ℤ◌}
use rssam.Common.Maps.{find, insert, delete}
use rssam.Webhook.Delivery.{WebhookLog}
use rssam.Webhook.Tests.{settings, now}
use rssam.Webhook.Digest.{first_loop, second_loop, group_digest_logs}
use rssam.Webhook.Digest.Tests.{peers, due_row}
use rssam.Worker.Inflight.{init, start, exclude, exclude_loop}
use rssam.Worker.Pauses.{active}
use rssam.Worker.Dispatch.{Hooks, Claims, claim, mark, transmit, start_state, Reach, here, next}
use rssam.Worker.Dispatch.Marked.{under_way}
use rssam.Worker.Dispatch.Safety.{one_under_way, Move, holders, Step-Move}

dispatch_run : Unit {0}
unfolding init start exclude exclude_loop active first_loop second_loop group_digest_logs find
    insert delete ◌-ℤ◌ ◌+ℤ◌
dispatch_run = tt

abbrev rows : List WebhookLog
rows = due_row 11 5 60 ∷ due_row 12 6 0 ∷ []

first-Claims : Claims now start_state rows
unfolding dispatch_run
first-Claims = record { single = λ w. ground arith; free = λ w h. cc }

-- After the first claim, and with the first row marked, sent and received.
abbrev claimed : Hooks
claimed = record start_state {
  inflight = (exclude now start_state.inflight).0;
  paused = (active now start_state.paused).0;
  grouped = group_digest_logs peers rows;
  claimed_at = now;
}

claimed-Reach : Reach settings 2 start_state claimed
unfolding dispatch_run
claimed-Reach = next here (claim now now rows peers refl refl first-Claims)

abbrev first_row : WebhookLog
first_row = record (due_row 11 5 60) { peers = 11 ∷ 15 ∷ [] }

abbrev waiting : Hooks
waiting = record claimed {
  inflight = start 5 now claimed.inflight;
  grouped = due_row 12 6 0 ∷ [];
  sending = some first_row;
}

abbrev sent : Hooks
sent = record waiting { sending = none; queue = first_row ∷ [] }

sent-Reach : Reach settings 2 start_state sent
unfolding dispatch_run
sent-Reach =
    next (next claimed-Reach (mark first_row (due_row 12 6 0 ∷ []) refl refl))
      (transmit first_row refl (omega arith))

one_under_way_example : under_way 5 sent ≤ 1
one_under_way_example = one_under_way sent-Reach 5

Step-Move_example : Move (holders start_state) (holders claimed)
Step-Move_example =
    Step-Move {cfg = settings} {pool = 2} here (claim now now rows peers refl refl first-Claims)

-- ===== src/Ws/Safety.antt =====
-- No goroutine sends on a closed channel or closes one twice, and no channel holds more than its
-- buffer.
use rssam.Common.{◌≡◌, sym, ◌∙◌, false, arith}
use rssam.Ws.{Hub, Reach, here, next, IsNew}
use rssam.Ws.Invariant.{Inv, Step-Inv}

IsNew-Inv : {h : Hub} → IsNew h → Inv h
IsNew-Inv {h} new = record {
  calm = new.calm;
  shut_gone = λ c. new.open_channel c ∙ sym (new.present c);
  connected = λ c there. new.present c;
  readers = rw new.no_readers tt;
  within = λ c. rw (new.empty c) (omega arith);
}

Reach-Inv : {h t : Hub} → IsNew h → Reach h t → Inv t
Reach-Inv new here = IsNew-Inv new
Reach-Inv new (next r st) = Step-Inv st (Reach-Inv new r)

-- Whatever the pumps, the publishers and the connections do, in every state that a new hub reaches no
-- goroutine has sent on a closed channel or closed one twice.
pub never_panics : {h t : Hub} → IsNew h → Reach h t → t.panicked ≡ false
never_panics new r = (Reach-Inv new r).calm

-- ===== src/Webhook/Digest.antt =====
-- internal/worker/webhook_digest.go: the rows of a digest webhook leave in one message. `groupDigestLogs`
-- stands here, the delivery in the child Run.
pub mod Grouping
pub mod Rows
pub mod Once
pub mod Run
pub mod Status
pub mod Marks
pub mod Tests
use rssam.Common.{
  ℕ, zero, suc, ◌+◌, ◌-◌, Bool, Option, none, some, List, [], ◌∷◌, ◌++◌, if◌then◌else◌, length,
  get_elem?,
}
use rssam.Common.Int.{ℤ, pos, ◌-ℤ◌, ltb_ℤ}
use rssam.Common.Maps.{id_key, find, insert}
use rssam.Webhook.Delivery.{WebhookLog}

abbrev pub webhook_digest_max_items : ℕ
webhook_digest_max_items = 200

-- `DigestMinutes > 0`
abbrev pub is_digest : WebhookLog → Bool
is_digest l = ltb_ℤ (pos 0) l.digest_minutes

-- `c.Peers = append(c.Peers, ids...)`
abbrev pub add_peers : List ℕ → WebhookLog → WebhookLog
add_peers ids c = record c { peers = c.peers ++ ids }

-- `out[i]` replaced; an index out of range does not occur.
abbrev pub update_at : (WebhookLog → WebhookLog) → ℕ → List WebhookLog → List WebhookLog
update_at f i [] = []
update_at f zero (l ∷ out) = f l ∷ out
update_at f (suc i) (l ∷ out) = l ∷ update_at f i out

-- `out`, and the index of the carrier of each webhook.
abbrev pub Groups : Type 0
Groups = List WebhookLog × List (ℕ × ℕ)

abbrev with_carrier : WebhookLog → List WebhookLog → List (ℕ × ℕ) → Option ℕ → Groups
with_carrier l out carriers (some i) = (update_at (add_peers (l.id ∷ [])) i out, carriers)
with_carrier l out carriers none =
    (out ++ record l { peers = l.id ∷ [] } ∷ [], insert l.webhook_id (length out) carriers)

-- The body of the first loop.
abbrev pub add_row : WebhookLog → Groups → Groups
add_row l (out, carriers) =
    if is_digest l
    then with_carrier l out carriers (find l.webhook_id carriers)
    else (out ++ l ∷ [], carriers)

unfoldable pub first_loop : List WebhookLog → Groups → Groups
first_loop [] g = g
first_loop (l ∷ logs) g = first_loop logs (add_row l g)

-- `ClaimWebhookDigestPeers`: the webhook, the ids left out and the limit, to the ids of the rows, or
-- none on an error.
abbrev pub ClaimPeers : Type 0
ClaimPeers = ℕ → List ℕ → ℤ → Option (List ℕ)

abbrev pub with_more : Option (List ℕ) → WebhookLog → WebhookLog
with_more none c = c
with_more (some more) c = add_peers more c

abbrev pub claim_more : ClaimPeers → WebhookLog → WebhookLog
claim_more claim c =
    with_more (claim c.webhook_id c.peers (pos webhook_digest_max_items -ℤ pos (length c.peers))) c

-- The second loop, over the carriers in the order of the iteration.
unfoldable pub second_loop : ClaimPeers → List (ℕ × ℕ) → List WebhookLog → List WebhookLog
second_loop claim [] out = out
second_loop claim ((webhook, i) ∷ carriers) out =
    second_loop claim carriers (update_at (claim_more claim) i out)

unfoldable pub group_digest_logs : ClaimPeers → List WebhookLog → List WebhookLog
group_digest_logs claim logs =
    let (out, carriers) = first_loop logs ([], []) in second_loop claim carriers out

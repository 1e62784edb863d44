-- ===== src/Worker/Dispatch/Rows.antt =====
-- How many rows of a webhook are on their way.
use rssam.Common.{
  ℕ, zero, suc, ◌+◌, ◌≤◌, ◌≡◌, refl, ◌∙◌, true, Option, none, some, List, [], ◌∷◌, ◌++◌, count,
  arith, Bool-cases, Option-cases, inl, inr,
}
use rssam.Common.Maps.{id_key, find}
use rssam.Webhook.Delivery.{WebhookLog}
use rssam.Webhook.Digest.{
  is_digest, add_peers, update_at, Groups, add_row, first_loop, ClaimPeers, with_more, claim_more,
  second_loop, group_digest_logs,
}
use rssam.Worker.Inflight.Exclusion.{mentions}
use rssam.Worker.Dispatch.{webhooks_of}

pub webhooks_of-append :
    (w : ℕ) (xs ys : List WebhookLog)
    → count w (webhooks_of (xs ++ ys)) ≡ count w (webhooks_of xs) + count w (webhooks_of ys)
webhooks_of-append w [] ys = omega arith
webhooks_of-append w (l ∷ xs) ys = ground (arith, webhooks_of-append w xs ys)

webhooks_of-update_at :
    (f : WebhookLog → WebhookLog) (i : ℕ) (out : List WebhookLog)
    → ((l : WebhookLog) → (f l).webhook_id ≡ l.webhook_id)
    → webhooks_of (update_at f i out) ≡ webhooks_of out
webhooks_of-update_at f i [] same = refl
webhooks_of-update_at f zero (l ∷ out) same = rw (same l) refl
webhooks_of-update_at f (suc i) (l ∷ out) same = rw (webhooks_of-update_at f i out same) refl

with_more-webhook :
    (o : Option (List ℕ)) (c : WebhookLog) → (with_more o c).webhook_id ≡ c.webhook_id
with_more-webhook none c = refl
with_more-webhook (some more) c = refl

webhooks_of-second_loop :
    (claim : ClaimPeers) (carriers : List (ℕ × ℕ)) (out : List WebhookLog)
    → webhooks_of (second_loop claim carriers out) ≡ webhooks_of out
unfolding second_loop
webhooks_of-second_loop claim [] out = refl
webhooks_of-second_loop claim ((w, i) ∷ carriers) out =
    webhooks_of-second_loop claim carriers (update_at (claim_more claim) i out)
    ∙ webhooks_of-update_at (claim_more claim) i out (λ l. with_more-webhook _ l)

webhooks_of-add_row :
    (w : ℕ) (l : WebhookLog) (g : Groups)
    → count w (webhooks_of (add_row l g).0)
      ≤ count w (webhooks_of g.0) + count w (l.webhook_id ∷ [])
webhooks_of-add_row w l (out, carriers) = elim (Bool-cases (is_digest l)) [
  | inr plain ↦ rw plain (omega (arith, webhooks_of-append w out (l ∷ [])))
  | inl digest ↦ elim (Option-cases (find l.webhook_id carriers)) [
    | inl new ↦
        rw (digest, new)
          (omega (arith, webhooks_of-append w out (record l { peers = l.id ∷ [] } ∷ [])))
    | inr (i, there) ↦
        rw (digest, there)
          (rw (webhooks_of-update_at (add_peers (l.id ∷ [])) i out (λ k. refl)) (omega arith))
  ]
]

webhooks_of-first_loop :
    (w : ℕ) (logs : List WebhookLog) (g : Groups)
    → count w (webhooks_of (first_loop logs g).0)
      ≤ count w (webhooks_of g.0) + count w (webhooks_of logs)
unfolding first_loop
webhooks_of-first_loop w [] g = omega arith
webhooks_of-first_loop w (l ∷ logs) g =
    ground (arith, webhooks_of-first_loop w logs (add_row l g), webhooks_of-add_row w l g)

-- Grouping adds no rows of a webhook.
pub webhooks_of-group :
    (w : ℕ) (claim : ClaimPeers) (logs : List WebhookLog)
    → count w (webhooks_of (group_digest_logs claim logs)) ≤ count w (webhooks_of logs)
unfolding group_digest_logs
webhooks_of-group w claim logs =
    rw (webhooks_of-second_loop claim (first_loop logs ([], [])).1 (first_loop logs ([], [])).0)
      (omega (arith, webhooks_of-first_loop w logs ([], [])))

pub mentions-append : (w : ℕ) (xs ys : List ℕ) → mentions w xs ≡ true → mentions w (xs ++ ys) ≡ true
mentions-append w [] ys h = cc
mentions-append w (x ∷ xs) ys h = ground (arith, mentions-append w xs ys)

-- ===== src/Webhook/Digest/Rows.antt =====
-- Whose rows are in a message, and that a webhook has one carrier.
use rssam.Common.{
  ℕ, zero, suc, ◌+◌, ◌≤◌, ◌≡◌, refl, sym, ◌∙◌, true, false, none, some, List, [], ◌∷◌, ◌++◌,
  if◌then◌else◌, ==_iff, count, count-append, arith, All, All-append, Bool-cases, Option-cases, inl,
  inr,
}
use rssam.Common.Int.{ℤ, pos, ltb_ℤ}
use rssam.Common.Maps.{id_key, find}
use rssam.Webhook.Delivery.{WebhookLog}
use rssam.Webhook.Digest.{is_digest, add_peers, update_at, Groups, add_row, first_loop}
use rssam.Webhook.Digest.Grouping.{carries, position, ids_of, travels, IsGrouped, add_row-IsGrouped}

-- The rows of a message belong to its webhook, and a webhook has one digest setting.
module _ (minutes : ℕ → ℤ) (owner : ℕ → ℕ) where
  abbrev pub IsOwned : WebhookLog → Type 0
  IsOwned l =
      (l.digest_minutes ≡ minutes l.webhook_id)
      × ((n : ℕ) → 1 ≤ count n (ids_of l) → owner n ≡ l.webhook_id)

  -- The rows that carry the digest of a webhook.
  abbrev pub carriers_of : ℕ → List WebhookLog → ℕ
  carriers_of webhook [] = 0
  carriers_of webhook (l ∷ out) =
      let rest = carriers_of webhook out in if carries webhook l then suc rest else rest

  -- Without a carrier, none of the webhook's rows travels.
  pub travels-zero :
      (n webhook : ℕ) (out : List WebhookLog)
      → ltb_ℤ (pos 0) (minutes webhook) ≡ true
      → owner n ≡ webhook
      → All IsOwned out
      → carriers_of webhook out ≡ 0
      → travels n out ≡ 0
  travels-zero n webhook [] on mine owned none_carries = refl
  travels-zero n webhook (l ∷ out) on mine owned none_carries = ground (
    arith,
    travels-zero n webhook out on mine owned.1,
    owned.0.1 n,
    owned.0.0,
    ==_iff l.webhook_id webhook,
  )

  -- A webhook with a carrier has digests.
  pub minutes-position :
      (w i : ℕ) (out : List WebhookLog)
      → position w out ≡ some i
      → All IsOwned out
      → ltb_ℤ (pos 0) (minutes w) ≡ true
  minutes-position w i [] there owned = cc
  minutes-position w zero (l ∷ out) there owned = ground (arith, owned.0.0, ==_iff l.webhook_id w)
  minutes-position w (suc i) (l ∷ out) there owned =
      ground (arith, minutes-position w i out _ owned.1)

  -- What the first loop keeps of its rows.
  abbrev pub IsTidy : List WebhookLog → Type 0
  IsTidy out = All IsOwned out × ((w : ℕ) → carriers_of w out ≤ 1)

  carriers_of-append :
      (w : ℕ) (xs ys : List WebhookLog)
      → carriers_of w (xs ++ ys) ≡ carriers_of w xs + carriers_of w ys
  carriers_of-append w [] ys = omega arith
  carriers_of-append w (l ∷ xs) ys = ground (arith, carriers_of-append w xs ys)

  carriers_of-position :
      (w : ℕ) (out : List WebhookLog) → position w out ≡ none → carriers_of w out ≡ 0
  carriers_of-position w [] h = refl
  carriers_of-position w (l ∷ out) h = ground (arith, carriers_of-position w out)

  carriers_of-update_at :
      (w i : ℕ) (ids : List ℕ) (out : List WebhookLog)
      → carriers_of w (update_at (add_peers ids) i out) ≡ carriers_of w out
  carriers_of-update_at w i ids [] = refl
  carriers_of-update_at w zero ids (l ∷ out) = refl
  carriers_of-update_at w (suc i) ids (l ∷ out) = ground (arith, carriers_of-update_at w i ids out)

  IsOwned-add_peers :
      (l : WebhookLog) (id : ℕ)
      → is_digest l ≡ true
      → owner id ≡ l.webhook_id
      → IsOwned l
      → IsOwned (add_peers (id ∷ []) l)
  IsOwned-add_peers l id digest mine owned =
      (owned.0, λ n here. ground (arith, count-append n l.peers (id ∷ []), owned.1 n, ==_iff id n))

  IsOwned-update_at :
      (id w i : ℕ) (out : List WebhookLog)
      → position w out ≡ some i
      → owner id ≡ w
      → All IsOwned out
      → All IsOwned (update_at (add_peers (id ∷ [])) i out)
  IsOwned-update_at id w i [] there mine owned = tt
  IsOwned-update_at id w zero (l ∷ out) there mine owned = (
    IsOwned-add_peers l id (ground arith) (ground (arith, ==_iff l.webhook_id w)) owned.0,
    owned.1,
  )
  IsOwned-update_at id w (suc i) (l ∷ out) there mine owned =
      (owned.0, IsOwned-update_at id w i out (ground arith) mine owned.1)

  -- A claimed row.
  abbrev pub IsClaimed : WebhookLog → Type 0
  IsClaimed l = (l.digest_minutes ≡ minutes l.webhook_id) × (owner l.id ≡ l.webhook_id)

  IsOwned-plain : (l : WebhookLog) → is_digest l ≡ false → IsClaimed l → IsOwned l
  IsOwned-plain l plain claimed = (claimed.0, λ n here. ground (arith, ==_iff l.id n))

  IsOwned-new :
      (l : WebhookLog) → is_digest l ≡ true → IsClaimed l → IsOwned (record l { peers = l.id ∷ [] })
  IsOwned-new l digest claimed = (claimed.0, λ n here. ground (arith, ==_iff l.id n))

  add_row-IsTidy :
      (l : WebhookLog) (g : Groups)
      → IsGrouped g
      → IsClaimed l
      → IsTidy g.0
      → IsTidy (add_row l g).0
  add_row-IsTidy l (out, carriers) grouped claimed tidy = elim (Bool-cases (is_digest l)) [
    | inr plain ↦ rw plain (
      All-append IsOwned out (l ∷ []) tidy.0 (IsOwned-plain l plain claimed, tt),
      λ w. ground (arith, carriers_of-append w out (l ∷ []), tidy.1 w),
    )
    | inl digest ↦ elim (Option-cases (find l.webhook_id carriers)) [
      | inl new ↦
          rw (digest, new)
            (
              All-append IsOwned out (record l { peers = l.id ∷ [] } ∷ []) tidy.0
                  (IsOwned-new l digest claimed, tt),
              λ w. ground (
                arith,
                carriers_of-append w out (record l { peers = l.id ∷ [] } ∷ []),
                carriers_of-position w out,
                grouped.0 w,
                ==_iff l.webhook_id w,
                tidy.1 w,
              ),
            )
      | inr (i, there) ↦
          rw (digest, there)
            (
              IsOwned-update_at l.id l.webhook_id i out (sym (grouped.0 l.webhook_id) ∙ there)
                  claimed.1 tidy.0,
              λ w. rw (carriers_of-update_at w i (l.id ∷ []) out) (tidy.1 w),
            )
    ]
  ]

  pub first_loop-IsTidy :
      (logs : List WebhookLog) (g : Groups)
      → IsGrouped g
      → All IsClaimed logs
      → IsTidy g.0
      → IsTidy (first_loop logs g).0
  unfolding first_loop
  first_loop-IsTidy [] g grouped claimed tidy = tidy
  first_loop-IsTidy (l ∷ logs) g grouped claimed tidy =
      first_loop-IsTidy logs (add_row l g) (add_row-IsGrouped l g grouped) claimed.1
        (add_row-IsTidy l g grouped claimed.0 tidy)

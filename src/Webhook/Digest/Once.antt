-- ===== src/Webhook/Digest/Once.antt =====
-- No row travels in two messages, also with the rows that the store adds.
use rssam.Common.{
  ℕ, zero, suc, ◌+◌, ◌≤◌, ◌≡◌, refl, sym, ap, ◌∙◌, true, false, Option, none, some, List, [], ◌∷◌,
  ◌==◌, ==_iff, length, count, count-append, arith, All,
}
use rssam.Common.Int.{ℤ, pos, ◌-ℤ◌}
use rssam.Webhook.Delivery.{WebhookLog}
use rssam.Webhook.Digest.{
  webhook_digest_max_items, is_digest, update_at, first_loop, ClaimPeers, with_more, claim_more,
  second_loop, group_digest_logs,
}
use rssam.Webhook.Digest.Grouping.{
  position, ids_of, travels, row_ids, IsGrouped-start, Entries, travels-first_loop,
}
use rssam.Webhook.Digest.Rows.{
  IsOwned, carriers_of, travels-zero, minutes-position, IsClaimed, first_loop-IsTidy,
}

module _ (minutes : ℕ → ℤ) (owner : ℕ → ℕ) (claim : ClaimPeers) where
  -- What the store adds to a carrier.
  abbrev pub more_of : WebhookLog → Option (List ℕ)
  more_of c = claim c.webhook_id c.peers (pos webhook_digest_max_items -ℤ pos (length c.peers))

  abbrev pub count_more : ℕ → Option (List ℕ) → ℕ
  count_more n none = 0
  count_more n (some more) = count n more

  count-with_more :
      (n : ℕ) (o : Option (List ℕ)) (c : WebhookLog)
      → is_digest c ≡ true
      → count n (ids_of (with_more o c)) ≡ count n (ids_of c) + count_more n o
  count-with_more n none c h = omega arith
  count-with_more n (some more) c h = ground (arith, count-append n c.peers more)

  -- The answer for a carrier: rows of its webhook, each once, none that it has already.
  abbrev pub IsClaim : WebhookLog → Type 0
  IsClaim c =
      (n : ℕ)
      → (count_more n (more_of c) ≤ 1)
        × (1 ≤ count n c.peers → count_more n (more_of c) ≡ 0)
        × (1 ≤ count_more n (more_of c) → owner n ≡ c.webhook_id)

  same-with_more :
      (o : Option (List ℕ)) (c : WebhookLog)
      → ((with_more o c).webhook_id ≡ c.webhook_id)
        × ((with_more o c).digest_minutes ≡ c.digest_minutes)
  same-with_more none c = (refl, refl)
  same-with_more (some more) c = (refl, refl)

  position-claimed :
      (w i : ℕ) (out : List WebhookLog)
      → position w (update_at (claim_more claim) i out) ≡ position w out
  position-claimed w i [] = refl
  position-claimed w zero (l ∷ out) = ground (arith, same-with_more (more_of l) l)
  position-claimed w (suc i) (l ∷ out) = ground (arith, position-claimed w i out)

  carriers_of-claimed :
      (w i : ℕ) (out : List WebhookLog)
      → carriers_of minutes owner w (update_at (claim_more claim) i out)
        ≡ carriers_of minutes owner w out
  carriers_of-claimed w i [] = refl
  carriers_of-claimed w zero (l ∷ out) = ground (arith, same-with_more (more_of l) l)
  carriers_of-claimed w (suc i) (l ∷ out) = ground (arith, carriers_of-claimed w i out)

  -- The ids of other webhooks stay where they are.
  travels-other :
      (n w i : ℕ) (out : List WebhookLog)
      → ((c : WebhookLog) → IsClaim c)
      → position w out ≡ some i
      → (owner n == w) ≡ false
      → travels n (update_at (claim_more claim) i out) ≡ travels n out
  travels-other n w i [] claims there other = cc
  travels-other n w zero (l ∷ out) claims there other = ground (
    arith,
    count-with_more n (more_of l) l,
    claims l n,
    ==_iff l.webhook_id w,
    ==_iff (owner n) w,
  )
  travels-other n w (suc i) (l ∷ out) claims there other =
      ground (arith, travels-other n w i out claims _ other)

  -- One round of the second loop.
  travels-claimed :
      (n w i : ℕ) (out : List WebhookLog)
      → ((c : WebhookLog) → IsClaim c)
      → position w out ≡ some i
      → All (IsOwned minutes owner) out
      → carriers_of minutes owner w out ≤ 1
      → travels n out ≤ 1
      → travels n (update_at (claim_more claim) i out) ≤ 1
  travels-claimed n w i [] claims there owned sole once = cc
  travels-claimed n w zero (l ∷ out) claims there owned sole once = ground (
    arith,
    count-with_more n (more_of l) l,
    claims l n,
    ==_iff l.webhook_id w,
    travels-zero minutes owner n w out _ _ owned.1 _,
    owned.0.0,
  )
  travels-claimed n w (suc i) (l ∷ out) claims there owned sole once = ground (
    arith,
    travels-claimed n w i out claims _ owned.1 _ _,
    travels-other n w i out claims _ _,
    owned.0.1 n,
    owned.0.0,
    minutes-position minutes owner w i out,
    owned.1,
    ==_iff (owner n) w,
    ==_iff l.webhook_id w,
  )

  IsOwned-with_more :
      (l : WebhookLog)
      → is_digest l ≡ true
      → IsClaim l
      → IsOwned minutes owner l
      → IsOwned minutes owner (claim_more claim l)
  IsOwned-with_more l digest claims owned = (
    (same-with_more (more_of l) l).1 ∙ owned.0 ∙ ap minutes (sym (same-with_more (more_of l) l).0),
    λ n here. ground (
      arith,
      count-with_more n (more_of l) l,
      claims n,
      owned.1 n,
      (same-with_more (more_of l) l).0,
    ),
  )

  IsOwned-claimed :
      (w i : ℕ) (out : List WebhookLog)
      → ((c : WebhookLog) → IsClaim c)
      → position w out ≡ some i
      → All (IsOwned minutes owner) out
      → All (IsOwned minutes owner) (update_at (claim_more claim) i out)
  IsOwned-claimed w i [] claims there owned = tt
  IsOwned-claimed w zero (l ∷ out) claims there owned =
      (IsOwned-with_more l (ground arith) (claims l) owned.0, owned.1)
  IsOwned-claimed w (suc i) (l ∷ out) claims there owned =
      (owned.0, IsOwned-claimed w i out claims (ground arith) owned.1)

  Entries-claimed :
      (i : ℕ) (out : List WebhookLog) (carriers : List (ℕ × ℕ))
      → Entries (out, carriers)
      → Entries (update_at (claim_more claim) i out, carriers)
  Entries-claimed i out [] h = tt
  Entries-claimed i out ((w, j) ∷ carriers) h =
      (position-claimed w i out ∙ h.0, Entries-claimed i out carriers h.1)

  travels-second_loop :
      (n : ℕ) (carriers : List (ℕ × ℕ)) (out : List WebhookLog)
      → ((c : WebhookLog) → IsClaim c)
      → Entries (out, carriers)
      → All (IsOwned minutes owner) out
      → ((w : ℕ) → carriers_of minutes owner w out ≤ 1)
      → travels n out ≤ 1
      → travels n (second_loop claim carriers out) ≤ 1
  unfolding second_loop
  travels-second_loop n [] out claims entries owned sole once = once
  travels-second_loop n ((w, i) ∷ carriers) out claims entries owned sole once =
      travels-second_loop n carriers (update_at (claim_more claim) i out) claims
        (Entries-claimed i out carriers entries.1) (IsOwned-claimed w i out claims entries.0 owned)
        (λ v. rw (carriers_of-claimed v i out) (sole v))
        (travels-claimed n w i out claims entries.0 owned (sole w) once)

  -- Where a row has one webhook, a webhook one digest setting, and the store adds to a digest only rows
  -- of its webhook, each once and none that it has already: of rows that are claimed once each, none
  -- leaves twice, in two messages or in one.
  pub travels-group_digest_logs :
      (n : ℕ) (logs : List WebhookLog)
      → All (IsClaimed minutes owner) logs
      → count n (row_ids logs) ≤ 1
      → ((c : WebhookLog) → IsClaim c)
      → travels n (group_digest_logs claim logs) ≤ 1
  unfolding group_digest_logs
  travels-group_digest_logs n logs claimed once claims =
      let (grouped, total) = travels-first_loop n logs ([], []) IsGrouped-start in
      let (owned, sole) =
        first_loop-IsTidy minutes owner logs ([], []) IsGrouped-start claimed
          (tt, λ w. omega arith) in
      travels-second_loop n (first_loop logs ([], [])).1 (first_loop logs ([], [])).0 claims
        grouped.1 owned sole (omega (arith, total, once))

-- ===== src/Ws/Isolation.antt =====
-- Only events of its own user, on a channel that it asked for, reach a client.
use rssam.Common.{
  ℕ, ◌≡◌, ◌⊎◌, refl, ap, sym, ◌∙◌, Bool, true, false, List, [], ◌∷◌, ◌++◌, length, ltb, ◌==◌,
  ==_iff, Bool-cases, inl, inr, arith,
}
use rssam.Common.Int.{ℤ, eq_ℤ, eq_ℤ_iff}
use rssam.Common.Text.{Text}
use rssam.Ws.{
  Publish, Hub, register, unregister, close, is_subscribed, offer, try_send, publish_to_user,
  with_slow, visit, taken, Step, registers, unregisters, closes, publishes, visits, unlocks, evicts,
  answers, writes, subscribes,
}

-- What one action may do to the payloads that wait for a client: nothing; take the first to the
-- connection; add an answer, by a call of `trySend` for this client; or add the payload of a call of `PublishToUser` for
-- the client's user, on a channel among its subscriptions.
pub data Change (h t : Hub) (c : ℕ) : Type 0 where
  stays : (t.at c).send ≡ (h.at c).send → Change h t c
  written : (payload : Text) → (h.at c).send ≡ payload ∷ (t.at c).send → Change h t c
  answered :
      (payload : Text)
      → t ≡ try_send c payload h
      → (t.at c).send ≡ (h.at c).send ++ payload ∷ []
      → Change h t c
  delivered :
      (before : List Publish) (p : Publish) (after : List Publish)
      → h.reading ≡ before ++ p ∷ after
      → (h.at c).user_id ≡ p.user_id
      → is_subscribed p.channels (h.at c) ≡ true
      → (t.at c).send ≡ (h.at c).send ++ p.payload ∷ []
      → Change h t c

send-register : (c d : ℕ) (h : Hub) → ((register c h).at d).send ≡ (h.at d).send
unfolding register
send-register c d h = ground arith

send-unregister : (c d : ℕ) (h : Hub) → ((unregister c h).at d).send ≡ (h.at d).send
unfolding unregister
send-unregister c d h = ground (arith, ==_iff d c)

send-close : (c d : ℕ) (h : Hub) → ((close c h).at d).send ≡ (h.at d).send
unfolding close
send-close c d h = ground (arith, ==_iff d c)

send-publish_to_user :
    (user_id : ℤ) (channels : List Text) (payload : Text) (h : Hub) (d : ℕ)
    → ((publish_to_user user_id channels payload h).at d).send ≡ (h.at d).send
unfolding publish_to_user
send-publish_to_user user_id channels payload h d = ground arith

send-offer :
    (c d : ℕ) (payload : Text) (h : Hub)
    → (((offer c payload h).0.at d).send ≡ (h.at d).send)
      ⊎ (((offer c payload h).0.at d).send ≡ (h.at d).send ++ payload ∷ []) × (d ≡ c)
unfolding offer
send-offer c d payload h = elim (Bool-cases (h.at c).shut) [
  | inl shut ↦ inl (ground arith)
  | inr open_channel ↦ elim (Bool-cases (ltb (length (h.at c).send) h.client_buffer)) [
    | inl room ↦ elim (Bool-cases (d == c)) [
      | inl same ↦ inr (ground (arith, ==_iff d c), (==_iff d c).0 same)
      | inr other ↦ inl (ground arith)
    ]
    | inr full ↦ inl (ground arith)
  ]
]

send-with_slow :
    (c d : ℕ) (slow : List ℕ) (r : Hub × Bool)
    → ((with_slow c slow r).0.at d).send ≡ (r.0.at d).send
send-with_slow c d slow (h, true) = refl
send-with_slow c d slow (h, false) = refl

-- A round of the loop adds the payload to the client that it visits, if the client is of the user and
-- has asked for one of the channels.
send-visit :
    (p : Publish) (d c : ℕ) (h : Hub)
    → (((visit p d h).0.at c).send ≡ (h.at c).send)
      ⊎ (((visit p d h).0.at c).send ≡ (h.at c).send ++ p.payload ∷ [])
        × ((h.at c).user_id ≡ p.user_id)
        × (is_subscribed p.channels (h.at c) ≡ true)
unfolding visit
send-visit p d c h = elim (Bool-cases (eq_ℤ (h.at d).user_id p.user_id)) [
  | inl own ↦ elim (Bool-cases (is_subscribed p.channels (h.at d))) [
    | inl wanted ↦
        rw (own, wanted, send-with_slow d c p.slow (offer d p.payload h))
          (elim (send-offer d c p.payload h) [
            | inl same ↦ inl same
            | inr (more, here) ↦ inr (
              more,
              ap (λ e. (h.at e).user_id) here ∙ (eq_ℤ_iff _ _).0 own,
              ap (λ e. is_subscribed p.channels (h.at e)) here ∙ wanted,
            )
          ])
    | inr unwanted ↦ rw (own, unwanted) (inl refl)
  ]
  | inr other ↦ rw other (inl refl)
]

send-try_send :
    (d c : ℕ) (payload : Text) (h : Hub)
    → (((try_send d payload h).at c).send ≡ (h.at c).send)
      ⊎ (((try_send d payload h).at c).send ≡ (h.at c).send ++ payload ∷ []) × (c ≡ d)
unfolding try_send
send-try_send d c payload h = elim (Bool-cases (h.at d).gone) [
  | inl left ↦ inl (ground arith)
  | inr there ↦ elim (send-offer d c payload h) [
    | inl same ↦ inl (ground arith)
    | inr (more, here) ↦ inr (ground arith, here)
  ]
]

send-taken :
    (d c : ℕ) (payload : Text) (rest : List Text) (h : Hub)
    → (h.at d).send ≡ payload ∷ rest
    → (((taken d rest h).at c).send ≡ (h.at c).send)
      ⊎ ((h.at c).send ≡ payload ∷ ((taken d rest h).at c).send)
send-taken d c payload rest h waiting = elim (Bool-cases (c == d)) [
  | inl same ↦ inr (ground (arith, ==_iff c d))
  | inr other ↦ inl (ground arith)
]

-- One action of the goroutines leaves the payloads that wait for a client, or takes the first for its
-- connection, or adds one at the end: an answer, in which case the action is the call of `trySend` for
-- this very client, or the payload of a call of `PublishToUser` under way for the client's user, on a
-- channel among its subscriptions.
pub Step-Change : {h t : Hub} → Step h t → (c : ℕ) → Change h t c
Step-Change {h} (registers d free) c = stays (send-register d c h)
Step-Change {h} (unregisters d free) c = stays (send-unregister d c h)
Step-Change {h} (closes d) c = stays (send-close d c h)
Step-Change {h} (publishes user_id channels payload) c =
    stays (send-publish_to_user user_id channels payload h c)
Step-Change {h} (visits before p after d rest reading todo) c = elim (send-visit p d c h) [
  | inl same ↦ stays same
  | inr (more, own, wanted) ↦ delivered before p after reading own wanted more
]
Step-Change {h} (unlocks before p after reading done) c = stays refl
Step-Change {h} (evicts before d slow after free evicting) c =
    stays (send-unregister d c (close d h) ∙ send-close d c h)
Step-Change {h} (answers d payload) c = elim (send-try_send d c payload h) [
  | inl same ↦ stays same
  | inr (more, here) ↦ answered payload (ap (λ e. try_send e payload h) (sym here)) more
]
Step-Change {h} (writes d payload rest waiting) c = elim (send-taken d c payload rest h waiting) [
  | inl same ↦ stays same
  | inr less ↦ written payload less
]
Step-Change {h} (subscribes d channels) c = stays (ground (arith, ==_iff c d))

-- ===== src/Webhook/Digest/Marks.antt =====
-- What the effects of a digest say, as those of a single delivery do.
use rssam.Common.{
  ◌+◌, ◌/◌, ℕ, ◌||◌, not, ◌<◌, ◌≤◌, ◌≡◌, refl, Bool, true, false, ◌&&◌, Option, none, some, List,
  [], ◌∷◌, ◌==◌, ==_iff, ◌^◌, null, All, All-append, Bool-cases, any, arith, inl, inr,
  if◌then◌else◌,
}
use rssam.Common.Int.{ℤ, pos, ◌<ℤ◌, eq_ℤ}
use rssam.Common.Text.{Text}
use rssam.Webhook.Backoff.{Settings}
use rssam.Webhook.Delivery.{
  WebhookLog, Webhook, Outbound, Response, Failure, transport_error, request_error, load_error,
  outbound_error, Effect, retry_after_of, provider_delivery_ok, webhook_disabled_park,
}
use rssam.Webhook.Delivery.Marks.{
  IsDue, IsMark, marks-on_success, schedule-IsDue, later, retry_after_of_bounds,
}
use rssam.Webhook.Digest.Run.{
  DigestItem, DigestWorld, DigestEffect, mark_logs_sent, mark_logs_failed, digest_pause,
  digest_send, on_entry, digest_ids, digest_attempt, digest_failure, digest_dead, on_entries,
  item_log, apply_digest_on_success, digest_conclude, digest_allows, digest_signs, digest_dispatch,
  digest_loaded, deliver_webhook_digest,
}

-- The items that were loaded.
abbrev pub items_of : Option (Webhook × List DigestItem) → List DigestItem
items_of none = []
items_of (some (wh, items)) = items

abbrev pub is_item : DigestItem → List DigestItem → Bool
is_item it items = any (λ i. i.log_id == it.log_id && i.entry_id == it.entry_id) items

module _ (cfg : Settings) (w : DigestWorld) (l : WebhookLog) where
  -- An effect on an entry is one that the single delivery of one of the items has.
  abbrev pub IsDigestMark : DigestEffect → Type 0
  IsDigestMark (mark_logs_sent ids status) = ids ≡ digest_ids cfg w l
  IsDigestMark (mark_logs_failed ids status why next dead counted) =
      (ids ≡ digest_ids cfg w l) × IsDue cfg w.world l next dead × (counted || not dead ≡ true)
  IsDigestMark (digest_pause id until) = (id ≡ l.webhook_id) × (w.world.now <ℤ until)
  IsDigestMark (digest_send out signed) = digest_allows cfg w l out.url ≡ true
  IsDigestMark (on_entry e) =
      (it : DigestItem) × (is_item it (items_of w.load) ≡ true)
      × IsMark cfg (record w.world { outcome = it.outcome }) (item_log cfg w l it) e

  marks-on_entries :
      (it : DigestItem) (es : List Effect)
      → is_item it (items_of w.load) ≡ true
      → All (IsMark cfg (record w.world { outcome = it.outcome }) (item_log cfg w l it)) es
      → All IsDigestMark (on_entries cfg w l es)
  marks-on_entries it [] here h = tt
  marks-on_entries it (e ∷ es) here h = ((it, here, h.0), marks-on_entries it es here h.1)

  abbrev AllItems : List DigestItem → Type 0
  AllItems = All (λ it. is_item it (items_of w.load) ≡ true)

  marks-digest_on_success :
      (wh : Webhook) (items : List DigestItem)
      → AllItems items
      → All IsDigestMark (apply_digest_on_success cfg w l wh items)
  unfolding apply_digest_on_success
  marks-digest_on_success wh [] h = tt
  marks-digest_on_success wh (it ∷ items) h =
      All-append IsDigestMark _ _
        (marks-on_entries it _ h.0 (
          marks-on_success cfg (record w.world { outcome = it.outcome }) (item_log cfg w l it)
            (record { webhook = wh; store_mode = it.store_mode })))
        (marks-digest_on_success wh items h.1)

is_item-cons :
    (it i : DigestItem) (items : List DigestItem)
    → is_item it items ≡ true
    → is_item it (i ∷ items) ≡ true
is_item-cons it i items h = ground arith

All-cons :
    (i : DigestItem) (items rest : List DigestItem)
    → All (λ it. is_item it rest ≡ true) items
    → All (λ it. is_item it (i ∷ rest) ≡ true) items
All-cons i [] rest h = tt
All-cons i (it ∷ items) rest h = (is_item-cons it i rest h.0, All-cons i items rest h.1)

is_item-All : (items : List DigestItem) → All (λ it. is_item it items ≡ true) items
is_item-All [] = tt
is_item-All (it ∷ items) = (
  ground (arith, ==_iff it.log_id it.log_id, ==_iff it.entry_id it.entry_id),
  All-cons it items items (is_item-All items),
)

module _ (cfg : Settings) (w : DigestWorld) (l : WebhookLog) (base top : ℕ)
    (eb : cfg.webhook_retry_base ≡ pos base) (et : cfg.webhook_retry_max ≡ pos top) (hb : 0 < base)
    (hl : base ≤ top) (ht : top + top / 2 < 2 ^ 63) where
  marks-digest_failure :
      (status : Option ℤ) (why : Failure) (retryable : Bool)
      → All (IsDigestMark cfg w l) (digest_failure cfg w l status why retryable)
  unfolding digest_failure
  marks-digest_failure status why true = (
    (refl, schedule-IsDue cfg w.world l base top eb et hb hl ht (digest_attempt cfg w l), refl),
    tt,
  )
  marks-digest_failure status why false = ((refl, refl, refl), tt)

  marks-digest_conclude :
      (wh : Webhook) (items : List DigestItem) (kind : Text) (resp : Option Response)
      → AllItems cfg w l items
      → All (IsDigestMark cfg w l) (digest_conclude cfg w l wh items kind resp)
  unfolding digest_conclude
  marks-digest_conclude wh items kind none h = marks-digest_failure none transport_error true
  marks-digest_conclude wh items kind (some resp) h =
      elim (Bool-cases (provider_delivery_ok w.world kind resp.status resp.snippet)) [
        | inl delivered ↦ rw delivered (refl, marks-digest_on_success cfg w l wh items h)
        | inr refused ↦ elim (Bool-cases (eq_ℤ resp.status (pos 429))) [
          | inl flood ↦
              let wait =
                later cfg w.world l base top eb et hb hl ht (retry_after_of resp w.world.now)
                  (retry_after_of_bounds resp w.world.now).0 in
              rw (refused, flood) ((refl, wait), ((refl, (refl, wait), refl), tt))
          | inr other ↦ rw (refused, other) (marks-digest_failure _ _ _)
        ]
      ]

  marks-digest_request :
      (wh : Webhook) (items : List DigestItem) (kind : Text) (out : Outbound) (built : Bool)
      → AllItems cfg w l items
      → digest_allows cfg w l out.url ≡ true
      → All (IsDigestMark cfg w l) (
          if built
          then digest_send out (digest_signs cfg w l wh kind)
            ∷ digest_conclude cfg w l wh items kind w.world.response
          else digest_failure cfg w l none request_error true)
  marks-digest_request wh items kind out true h allowed =
      (allowed, marks-digest_conclude wh items kind w.world.response h)
  marks-digest_request wh items kind out false h allowed =
      marks-digest_failure none request_error true

  marks-digest_dispatch :
      (wh : Webhook) (items : List DigestItem) (built : Outbound × Text)
      → AllItems cfg w l items
      → All (IsDigestMark cfg w l) (digest_dispatch cfg w l wh items built)
  unfolding digest_dispatch
  marks-digest_dispatch wh items (out, kind) h = elim (Bool-cases (digest_allows cfg w l out.url)) [
    | inl allowed ↦ rw allowed (marks-digest_request wh items kind out w.world.request_ok h allowed)
    | inr refused ↦ rw refused ((refl, refl, refl), tt)
  ]

  marks-built :
      (wh : Webhook) (items : List DigestItem) (o : Option (Outbound × Text))
      → AllItems cfg w l items
      → All (IsDigestMark cfg w l) (elim o [
        | none ↦ digest_dead cfg w l outbound_error
        | some built ↦ digest_dispatch cfg w l wh items built
      ])
  marks-built wh items none h = ((refl, refl, refl), tt)
  marks-built wh items (some built) h = marks-digest_dispatch wh items built h

  marks-digest_loaded :
      (o : Option (Webhook × List DigestItem))
      → AllItems cfg w l (items_of o)
      → All (IsDigestMark cfg w l) (digest_loaded cfg w l o)
  marks-digest_loaded none h = marks-digest_failure none load_error true
  marks-digest_loaded (some (wh, items)) h = elim (Bool-cases wh.enabled) [
    | inl on ↦ elim (Bool-cases (null items)) [
      | inl empty ↦ rw (on, empty) ((refl, refl, refl), tt)
      | inr filled ↦ rw (on, filled) (marks-built wh items w.built h)
    ]
    | inr off ↦ rw off (
      (
        refl,
        (refl, later cfg w.world l base top eb et hb hl ht webhook_disabled_park (omega arith)),
        refl,
      ),
      tt,
    )
  ]

  -- For settings with a positive retry base of at most the retry maximum, and a maximum of which one
  -- and a half times fits in an int64: a status of a digest is
  -- written for all the rows that the message carries; rows marked failed are dead with no next
  -- attempt, or alive with one strictly later, and where the attempt is not counted they are alive;
  -- the pause is of the digest's webhook and for a time to come; nothing is sent to a URL that the
  -- guard refuses; and an effect on an entry is one that the single delivery of a loaded item may have.
  pub deliver_webhook_digest-IsDigestMark :
      All (IsDigestMark cfg w l) (deliver_webhook_digest cfg w l)
  unfolding deliver_webhook_digest
  deliver_webhook_digest-IsDigestMark = marks-digest_loaded w.load (is_item-All (items_of w.load))

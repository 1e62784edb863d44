-- ===== src/Alerts/Told.antt =====
-- What a pass announces does not depend on the order in which the sets of the state are kept.
use rssam.Common.{
  ℕ, ◌≡◌, refl, sym, ◌∙◌, Bool, true, false, not, ◌||◌, Option, none, some, List, [], ◌∷◌, map,
  null, keep_if, if◌then◌else◌, arith,
}
use rssam.Common.Options.{◌>>=◌}
use rssam.Common.Maps.{id_key, text_key}
use rssam.Common.Text.{Text}
use rssam.Alerts.{
  has, set_of, SystemAlertFeed, SystemAlertWebhook, FeedTypeStat, SystemAlertState,
  SystemAlertsConfig, Answers, AlertMessage, bridge_recovered, feed_id, hook_id, type_of, new_ones,
  incidents, layout_diff, diff_listed, diff, state_changed, SystemAlerter, Effect, sends, audits,
  saves, announce, conclude_pass, with_hooks, on_hooks, pass,
}
use rssam.Alerts.Sets.{Distinct}
use rssam.Common.Lists.{total, total-append}
use rssam.Alerts.Alike.{Alike, IsSets, total-alike}

new_ones-alike :
    {A : Type 0} (id_of : A → ℕ) (old old' : List ℕ) (items : List A)
    → ((k : ℕ) → has k old ≡ has k old')
    → new_ones id_of old items ≡ new_ones id_of old' items
new_ones-alike id_of old old' [] h = refl
new_ones-alike id_of old old' (a ∷ items) h =
    ground (arith, new_ones-alike id_of old old' items h, h (id_of a))

module _ (old old' : List Text) (h : (k : Text) → has k old ≡ has k old') where
  incidents-alike : (stats : List FeedTypeStat) → incidents old stats ≡ incidents old' stats
  incidents-alike [] = refl
  incidents-alike (st ∷ stats) = rw (h st.feed_type, incidents-alike stats) refl

  begun-alike :
      (stats : List FeedTypeStat)
      → keep_if (λ st. not (has st.feed_type old)) stats
        ≡ (keep_if (λ st. not (has st.feed_type old')) stats)
  begun-alike [] = refl
  begun-alike (st ∷ stats) = rw (h st.feed_type, begun-alike stats) refl

total-recovered :
    (f : AlertMessage → ℕ) (p : Text → Bool) (old : List Text)
    → total f (map bridge_recovered (keep_if p old))
      ≡ (total (λ b. if p b then f (bridge_recovered b) else 0) old)
total-recovered f p [] = refl
total-recovered f p (b ∷ old) = ground (arith, total-recovered f p old)

total-layout_diff :
    (f : AlertMessage → ℕ) (old old' : List Text) (stats : List FeedTypeStat)
    → Distinct old
    → Distinct old'
    → ((k : Text) → has k old ≡ has k old')
    → (total f (layout_diff old stats).0 ≡ total f (layout_diff old' stats).0)
      × ((layout_diff old stats).1 ≡ (layout_diff old' stats).1)
unfolding layout_diff
total-layout_diff f old old' stats d d' h =
    let same_stats = incidents-alike old old' h stats in
    let over = λ (b : Text). not (has b (set_of (map type_of (incidents old' stats)))) in
    rw (same_stats, begun-alike old old' h (incidents old' stats))
      (
        omega (
          arith,
          total-append f _ (map bridge_recovered (keep_if over old)),
          total-append f _ (map bridge_recovered (keep_if over old')),
          total-recovered f over old,
          total-recovered f over old',
          total-alike (λ b. if over b then f (bridge_recovered b) else 0) old old' d d' h,
        ),
        refl,
      )

total-diff_listed :
    (f : AlertMessage → ℕ) (cfg : SystemAlertsConfig) (ans : Answers) (s t : SystemAlertState)
    (paused silent : List SystemAlertFeed) (failing : List SystemAlertWebhook)
    (stats : List FeedTypeStat)
    → IsSets s
    → IsSets t
    → Alike s t
    → total f (diff_listed cfg ans s paused silent failing stats).0
      ≡ (total f (diff_listed cfg ans t paused silent failing stats).0)
total-diff_listed f cfg ans s t paused silent failing stats hs ht h =
    rw
      (
        new_ones-alike feed_id s.paused t.paused paused h.paused,
        new_ones-alike feed_id s.silent t.silent silent h.silent,
        new_ones-alike hook_id s.webhooks t.webhooks failing h.webhooks,
        h.release,
        h.backup,
        h.proxy,
      )
      (simp total-append (
        omega
          (arith, (total-layout_diff f s.layout t.layout stats hs.layout ht.layout h.layout).0)))

-- The messages of a result of `diff`, weighed.
abbrev loud : (AlertMessage → ℕ) → Option (List AlertMessage × SystemAlertState) → ℕ
loud f none = 0
loud f (some r) = total f r.0

loud->>= :
    {A : Type 0} (f : AlertMessage → ℕ) (o : Option A)
    (k l : A → Option (List AlertMessage × SystemAlertState))
    → ((a : A) → loud f (k a) ≡ loud f (l a))
    → loud f (o >>= k) ≡ loud f (o >>= l)
loud->>= f none k l h = refl
loud->>= f (some a) k l h = h a

loud-diff :
    (f : AlertMessage → ℕ) (cfg : SystemAlertsConfig) (ans : Answers) (s t : SystemAlertState)
    → IsSets s
    → IsSets t
    → Alike s t
    → loud f (diff cfg ans s) ≡ loud f (diff cfg ans t)
unfolding diff
loud-diff f cfg ans s t hs ht h = loud->>= f ans.paused _ _ (λ paused.
    loud->>= f ans.silent _ _ (λ silent. loud->>= f ans.failing _ _ (λ failing.
      loud->>= f ans.stats _ _
        (λ stats. total-diff_listed f cfg ans s t paused silent failing stats hs ht h))))

-- A weight for each announcement: a send through a webhook, or the row of the audit log.
abbrev pub weight : (Option ℕ → AlertMessage → ℕ) → Effect → ℕ
weight f (sends w m) = f (some w) m
weight f (audits m) = f none m
weight f (saves state) = 0

abbrev announced : (Option ℕ → AlertMessage → ℕ) → List ℕ → AlertMessage → ℕ
announced f hooks m = total (weight f) (announce hooks (m ∷ []))

total-announce :
    (f : Option ℕ → AlertMessage → ℕ) (hooks : List ℕ) (ms : List AlertMessage)
    → total (weight f) (announce hooks ms) ≡ total (announced f hooks) ms
total-announce f hooks [] = refl
total-announce f hooks (m ∷ ms) = omega (
  arith,
  total-announce f hooks ms,
  total-append (weight f) (map (λ w. sends w m) hooks) (audits m ∷ announce hooks ms),
  total-append (weight f) (map (λ w. sends w m) hooks) (audits m ∷ []),
)

pub total-saves :
    (f : Option ℕ → AlertMessage → ℕ) (changed : Bool) (state : SystemAlertState)
    → total (weight f) (if changed then saves state ∷ [] else []) ≡ 0
total-saves f true state = refl
total-saves f false state = refl

total-conclude_pass :
    (f : Option ℕ → AlertMessage → ℕ) (a : SystemAlerter) (hooks : List ℕ)
    (r : Option (List AlertMessage × SystemAlertState))
    → a.seeded ≡ true
    → total (weight f) (conclude_pass a hooks r).1 ≡ loud (announced f hooks) r
unfolding conclude_pass
total-conclude_pass f a hooks none seeded = refl
total-conclude_pass f a hooks (some r) seeded = rw seeded (
    omega (
      arith,
      total-append (weight f) (announce hooks r.0) _,
      total-announce f hooks r.0,
      total-saves f (not (null r.0) || state_changed a.state r.1) r.1,
    ))

module _ (f : Option ℕ → AlertMessage → ℕ) (cfg : SystemAlertsConfig) (a b : SystemAlerter)
    (sa : a.seeded ≡ true) (sb : b.seeded ≡ true) (ha : IsSets a.state) (hb : IsSets b.state)
    (alike : Alike b.state a.state) where
  total-with_hooks :
      (ans : Answers) (hooks : List ℕ)
      → total (weight f) (with_hooks cfg a ans hooks).1
        ≡ (total (weight f) (with_hooks cfg b ans hooks).1)
  total-with_hooks ans [] = ground arith
  total-with_hooks ans (w ∷ ws) =
      total-conclude_pass f a (w ∷ ws) (diff cfg ans a.state) sa
      ∙ sym (loud-diff (announced f (w ∷ ws)) cfg ans b.state a.state hb ha alike)
      ∙ sym (total-conclude_pass f b (w ∷ ws) (diff cfg ans b.state) sb)

  total-on_hooks :
      (ans : Answers) (hooks : Option (List ℕ))
      → total (weight f) (on_hooks cfg a ans hooks).1
        ≡ total (weight f) (on_hooks cfg b ans hooks).1
  total-on_hooks ans none = refl
  total-on_hooks ans (some hooks) = total-with_hooks ans hooks

  pub total-pass :
      (ans : Answers) → total (weight f) (pass cfg a ans).1 ≡ total (weight f) (pass cfg b ans).1
  unfolding pass
  total-pass ans = total-on_hooks ans ans.hooks

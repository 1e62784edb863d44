-- ===== src/Alerts/Episodes.antt =====
-- A paused feed is announced once for each time that it begins to be listed.
use rssam.Common.{
  ℕ, ◌+◌, ◌≡◌, refl, ap, Bool, true, false, not, ◌&&◌, ◌||◌, Option, none, some, List, [], ◌∷◌,
  ◌++◌, map, null, if◌then◌else◌, Bool-cases, inl, inr, arith,
}
use rssam.Common.Options.{◌>>=◌}
use rssam.Common.Maps.{id_key}
use rssam.Common.Text.{Text}
use rssam.Alerts.{
  has, SystemAlertFeed, SystemAlertWebhook, FeedTypeStat, SystemAlertState, SystemAlertsConfig,
  Answers, AlertMessage, feeds_paused, feeds_silent, webhooks_failing, update, backup_stale,
  proxy_down, bridge_layout, bridge_recovered, feed_id, new_ones, message_of, hook_id, is_update,
  backup_is_stale, state_changed, layout_diff, diff_listed, diff, SystemAlerter, Effect, sends,
  audits, announce, conclude_pass, on_hooks, pass,
}
use rssam.Alerts.Sets.{has-set_of}
use rssam.Common.Lists.{total, total-append}
use rssam.Alerts.Told.{weight, total-saves}

abbrev pub one_if : Bool → ℕ
one_if true = 1
one_if false = 0

-- The rows of the audit log that tell of the pause of a feed.
abbrev pub tells : ℕ → Option ℕ → AlertMessage → ℕ
tells k none (feeds_paused fs) = one_if (has k (map feed_id fs))
tells k none m = 0
tells k (some w) m = 0

-- What the store lists as paused, where none of its answers is an error.
abbrev pub listed : Answers → Option (List SystemAlertFeed)
listed ans = do
  paused ← ans.paused
  silent ← ans.silent
  failing ← ans.failing
  stats ← ans.stats
  some paused

-- The machine of one feed: with no baseline, or clear, or paused.
abbrev pub was_clear : Option Bool → Bool
was_clear (some false) = true
was_clear (some true) = false
was_clear none = false

abbrev pub watch :
    ℕ → Option (List ℕ) → Option (List SystemAlertFeed) → Option Bool → Option Bool × ℕ
watch k none feeds st = (st, 0)
watch k (some []) feeds st = (none, 0)
watch k (some (w ∷ ws)) none st = (st, 0)
watch k (some (w ∷ ws)) (some feeds) st =
    let now = has k (map feed_id feeds) in (some now, one_if (was_clear st && now))

abbrev pub episodes : ℕ → Option Bool → List Answers → ℕ
episodes k st [] = 0
episodes k st (ans ∷ later) =
    let r = watch k ans.hooks (listed ans) st in r.1 + episodes k r.0 later

abbrev pub status : ℕ → SystemAlerter → Option Bool
status k a = if a.seeded then some (has k a.state.paused) else none

unfoldable pub effects : SystemAlertsConfig → SystemAlerter → List Answers → List Effect
effects cfg a [] = []
effects cfg a (ans ∷ later) = let r = pass cfg a ans in r.1 ++ effects cfg r.0 later

module _ (k : ℕ) where
  total-sends :
      (hooks : List ℕ) (m : AlertMessage)
      → total (weight (tells k)) (map (λ w. sends w m) hooks) ≡ 0
  total-sends [] m = refl
  total-sends (w ∷ hooks) m = omega (arith, total-sends hooks m)

  total-announced :
      (hooks : List ℕ) (ms : List AlertMessage)
      → total (weight (tells k)) (announce hooks ms) ≡ total (tells k none) ms
  total-announced hooks [] = refl
  total-announced hooks (m ∷ ms) = omega (
    arith,
    total-announced hooks ms,
    total-sends hooks m,
    total-append (weight (tells k)) (map (λ w. sends w m) hooks) (audits m ∷ announce hooks ms),
  )

  has-new_ones :
      (old : List ℕ) (feeds : List SystemAlertFeed)
      → has k (map feed_id (new_ones feed_id old feeds))
        ≡ (not (has k old) && has k (map feed_id feeds))
  has-new_ones old [] = ground arith
  has-new_ones old (f ∷ feeds) = ground (arith, has-new_ones old feeds, id_key.same_iff f.id k)

  total-layout : (ms : List FeedTypeStat) → total (tells k none) (map bridge_layout ms) ≡ 0
  total-layout [] = refl
  total-layout (st ∷ ms) = omega (arith, total-layout ms)

  total-recovery : (ms : List Text) → total (tells k none) (map bridge_recovered ms) ≡ 0
  total-recovery [] = refl
  total-recovery (b ∷ ms) = omega (arith, total-recovery ms)

  total-layout_diff :
      (old : List Text) (stats : List FeedTypeStat)
      → total (tells k none) (layout_diff old stats).0 ≡ 0
  unfolding layout_diff
  total-layout_diff old stats = simp (total-append, total-layout, total-recovery) refl

  silent_of :
      {A : Type 0} (message : List A → AlertMessage) (items : List A)
      → ((xs : List A) → tells k none (message xs) ≡ 0)
      → total (tells k none) (message_of message items) ≡ 0
  silent_of message [] h = refl
  silent_of message (a ∷ items) h = omega (arith, h (a ∷ items))

  silent_if :
      (b : Bool) (m : AlertMessage)
      → tells k none m ≡ 0
      → total (tells k none) (if b then m ∷ [] else []) ≡ 0
  silent_if true m h = omega (arith, h)
  silent_if false m h = refl

  total-paused :
      (feeds : List SystemAlertFeed)
      → total (tells k none) (message_of feeds_paused feeds) ≡ one_if (has k (map feed_id feeds))
  total-paused [] = refl
  total-paused (f ∷ feeds) = omega arith

  -- Of the messages of a pass, one tells of the feed if it is listed and was not before.
  total-diff_listed :
      (cfg : SystemAlertsConfig) (ans : Answers) (old : SystemAlertState)
      (paused silent : List SystemAlertFeed) (failing : List SystemAlertWebhook)
      (stats : List FeedTypeStat)
      → total (tells k none) (diff_listed cfg ans old paused silent failing stats).0
        ≡ (one_if (not (has k old.paused) && has k (map feed_id paused)))
  total-diff_listed cfg ans old paused silent failing stats =
      simp (total-append, total-paused, has-new_ones, total-layout_diff)
        (omega (
          arith,
          silent_of feeds_silent (new_ones feed_id old.silent silent) (λ xs. refl),
          silent_of webhooks_failing (new_ones hook_id old.webhooks failing) (λ xs. refl),
          silent_if (is_update cfg old.release ans.latest) (update ans.latest) refl,
          silent_if (backup_is_stale cfg ans.backup_age && not old.backup) backup_stale refl,
          silent_if ((cfg.has_outage && ans.outage) && not old.proxy) proxy_down refl,
        ))

  -- What `diff` returns, against what the store lists as paused.
  abbrev Told :
      SystemAlertState
      → Option (List AlertMessage × SystemAlertState)
      → Option (List SystemAlertFeed)
      → Type 0
  Told old none none = Unit
  Told old none (some feeds) = ⊥
  Told old (some r) none = ⊥
  Told old (some r) (some feeds) =
      (has k r.1.paused ≡ has k (map feed_id feeds))
      × (total (tells k none) r.0 ≡ one_if (not (has k old.paused) && has k (map feed_id feeds)))

  >>=-Told :
      {A : Type 0} (old : SystemAlertState) (o : Option A)
      (l : A → Option (List AlertMessage × SystemAlertState))
      (m : A → Option (List SystemAlertFeed))
      → ((a : A) → Told old (l a) (m a))
      → Told old (o >>= l) (o >>= m)
  >>=-Told old none l m h = tt
  >>=-Told old (some a) l m h = h a

  diff-Told :
      (cfg : SystemAlertsConfig) (ans : Answers) (old : SystemAlertState)
      → Told old (diff cfg ans old) (listed ans)
  unfolding diff
  diff-Told cfg ans old = >>=-Told old ans.paused _ _ (λ paused.
      >>=-Told old ans.silent _ _ (λ silent. >>=-Told old ans.failing _ _ (λ failing.
        >>=-Told old ans.stats _ _ (λ stats. (
          has-set_of k (map feed_id paused),
          total-diff_listed cfg ans old paused silent failing stats,
        )))))

  -- A pass does to the machine of the feed what `watch` says.
  abbrev Follows : SystemAlerter → SystemAlerter × List Effect → Option Bool × ℕ → Type 0
  Follows a r spec = (status k r.0 ≡ spec.0) × (total (weight (tells k)) r.1 ≡ spec.1)

  total-seeded :
      (seeded before now : Bool) (msgs : List AlertMessage)
      → total (tells k none) msgs ≡ one_if (not before && now)
      → total (tells k none) (if seeded then msgs else [])
        ≡ (one_if (was_clear (if seeded then some before else none) && now))
  total-seeded true true now msgs h = h
  total-seeded true false now msgs h = h
  total-seeded false before now msgs h = refl

  conclude_pass-Follows :
      (a : SystemAlerter) (w : ℕ) (ws : List ℕ) (r : Option (List AlertMessage × SystemAlertState))
      (feeds : Option (List SystemAlertFeed))
      → Told a.state r feeds
      → Follows a (conclude_pass a (w ∷ ws) r) (watch k (some (w ∷ ws)) feeds (status k a))
  unfolding conclude_pass
  conclude_pass-Follows a w ws none none h = (refl, refl)
  conclude_pass-Follows a w ws none (some feeds) h = absurd h
  conclude_pass-Follows a w ws (some r) none h = absurd h
  conclude_pass-Follows a w ws (some (msgs, next)) (some feeds) h = (
    ap some h.0,
    omega (
      arith,
      total-append (weight (tells k)) (announce (w ∷ ws) (if a.seeded then msgs else [])) _,
      total-announced (w ∷ ws) (if a.seeded then msgs else []),
      total-saves (tells k) (not a.seeded || not (null msgs) || state_changed a.state next) next,
      total-seeded a.seeded (has k a.state.paused) (has k (map feed_id feeds)) msgs h.1,
    ),
  )

  on_hooks-Follows :
      (cfg : SystemAlertsConfig) (a : SystemAlerter) (ans : Answers) (hooks : Option (List ℕ))
      → Follows a (on_hooks cfg a ans hooks) (watch k hooks (listed ans) (status k a))
  on_hooks-Follows cfg a ans none = (refl, refl)
  on_hooks-Follows cfg a ans (some []) = elim (Bool-cases a.seeded) [
    | inl seeded ↦ (ground arith, ground arith)
    | inr bare ↦ (ground arith, ground arith)
  ]
  on_hooks-Follows cfg a ans (some (w ∷ ws)) =
      conclude_pass-Follows a w ws (diff cfg ans a.state) (listed ans) (diff-Told cfg ans a.state)

  -- Over any passes, errors of the store and passes without subscribers included, the audited messages
  -- that tell of the pause of a feed are as many as the times that the store begins to list it: at a
  -- pass that reads it as paused where the last that read it did not, after a baseline.
  pub total-effects :
      (cfg : SystemAlertsConfig) (a : SystemAlerter) (passes : List Answers)
      → total (weight (tells k)) (effects cfg a passes) ≡ episodes k (status k a) passes
  unfolding effects pass
  total-effects cfg a [] = refl
  total-effects cfg a (ans ∷ later) =
      let r = on_hooks cfg a ans ans.hooks in
      let follows = on_hooks-Follows cfg a ans ans.hooks in
      omega (
        arith,
        total-append (weight (tells k)) r.1 (effects cfg r.0 later),
        total-effects cfg r.0 later,
        follows.1,
        ap (λ st. episodes k st later) follows.0,
      )

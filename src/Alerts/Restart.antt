-- ===== src/Alerts/Restart.antt =====
-- A restart does not change what is announced: the saved state stands for the state in memory, except
-- after a pass without subscribers.
use rssam.Common.{
  ℕ, ◌≡◌, refl, ap, ◌∙◌, true, false, not, ◌||◌, Option, none, some, List, [], ◌∷◌, ◌++◌, map, null,
  if◌then◌else◌, Bool-cases, inl, inr, arith,
}
use rssam.Common.Options.{◌>>=◌}
use rssam.Common.Maps.{id_key, text_key}
use rssam.Alerts.{
  SystemAlertFeed, SystemAlertWebhook, FeedTypeStat, SystemAlertState, no_alerts,
  SystemAlertsConfig, Answers, AlertMessage, feed_id, hook_id, type_of, incidents, layout_diff,
  diff_listed, diff, state_changed, SystemAlerter, Effect, sends, audits, saves, announce,
  conclude_pass, with_hooks, on_hooks, pass, run, load, saved_after,
}
use rssam.Alerts.Sets.{set_of-Distinct}
use rssam.Alerts.Told.{weight, total-pass}
use rssam.Common.Lists.{total}
use rssam.Alerts.Alike.{Alike, IsSets, Alike-refl, Alike-trans, Alike-of_unchanged}

-- The saved state of a seeded alerter stands for its state.
record IsSaved (a : SystemAlerter) (saved : Option SystemAlertState) : Type 0 where
  sets : IsSets a.state
  stands : a.seeded ≡ true → (s : SystemAlertState) × (saved ≡ some s) × IsSets s × Alike s a.state

saved_after-sends :
    (ws : List ℕ) (m : AlertMessage) (rest es : List Effect) (saved : Option SystemAlertState)
    → saved_after ((map (λ w. sends w m) ws ++ rest) ++ es) saved ≡ saved_after (rest ++ es) saved
unfolding saved_after
saved_after-sends [] m rest es saved = refl
saved_after-sends (w ∷ ws) m rest es saved = saved_after-sends ws m rest es saved

saved_after-announce :
    (hooks : List ℕ) (ms : List AlertMessage) (es : List Effect) (saved : Option SystemAlertState)
    → saved_after (announce hooks ms ++ es) saved ≡ saved_after es saved
unfolding saved_after
saved_after-announce hooks [] es saved = refl
saved_after-announce hooks (m ∷ ms) es saved =
    saved_after-sends hooks m (audits m ∷ announce hooks ms) es saved
    ∙ saved_after-announce hooks ms es saved

no_alerts-IsSets : IsSets no_alerts
no_alerts-IsSets = record { paused = tt; silent = tt; webhooks = tt; layout = tt }

diff-IsSets :
    (cfg : SystemAlertsConfig) (ans : Answers) (old : SystemAlertState)
    (paused silent : List SystemAlertFeed) (failing : List SystemAlertWebhook)
    (stats : List FeedTypeStat)
    → IsSets (diff_listed cfg ans old paused silent failing stats).1
unfolding layout_diff
diff-IsSets cfg ans old paused silent failing stats = record {
  paused = set_of-Distinct (map feed_id paused);
  silent = set_of-Distinct (map feed_id silent);
  webhooks = set_of-Distinct (map hook_id failing);
  layout = set_of-Distinct (map type_of (incidents old.layout stats));
}

-- A result of `diff` is an error, or a state of sets.
abbrev HasSets : Option (List AlertMessage × SystemAlertState) → Type 0
HasSets none = Unit
HasSets (some r) = IsSets r.1

>>=-HasSets :
    {A : Type 0} (o : Option A) (k : A → Option (List AlertMessage × SystemAlertState))
    → ((a : A) → HasSets (k a))
    → HasSets (o >>= k)
>>=-HasSets none k h = tt
>>=-HasSets (some a) k h = h a

diff-HasSets :
    (cfg : SystemAlertsConfig) (ans : Answers) (old : SystemAlertState) → HasSets (diff cfg ans old)
unfolding diff
diff-HasSets cfg ans old = >>=-HasSets ans.paused _ (λ paused. >>=-HasSets ans.silent _ (λ silent.
    >>=-HasSets ans.failing _ (λ failing.
      >>=-HasSets ans.stats _ (λ stats. diff-IsSets cfg ans old paused silent failing stats))))

conclude_pass-IsSaved :
    (a : SystemAlerter) (saved : Option SystemAlertState) (hooks : List ℕ)
    (r : Option (List AlertMessage × SystemAlertState))
    → HasSets r
    → IsSaved a saved
    → IsSaved (conclude_pass a hooks r).0 (saved_after (conclude_pass a hooks r).1 saved)
unfolding conclude_pass saved_after
conclude_pass-IsSaved a saved hooks none h inv = inv
conclude_pass-IsSaved a saved hooks (some r) h inv =
    rw (saved_after-announce hooks (if a.seeded then r.0 else []) _ saved)
      (elim (Bool-cases (not a.seeded || not (null r.0) || state_changed a.state r.1)) [
        | inl changed ↦
            rw changed (record { sets = h; stands = λ _. (r.1, refl, h, Alike-refl r.1) })
        | inr unchanged ↦ rw unchanged (record {
          sets = h;
          stands = λ _.
              let (s, is_saved, sets, alike) = inv.stands (ground arith) in
              (
                s,
                is_saved,
                sets,
                Alike-trans s a.state r.1 alike
                    (Alike-of_unchanged a.state r.1 inv.sets h (ground arith)),
              );
        })
      ])

with_hooks-IsSaved :
    (cfg : SystemAlertsConfig) (a : SystemAlerter) (ans : Answers) (saved : Option SystemAlertState)
    (hooks : List ℕ)
    → IsSaved a saved
    → IsSaved (with_hooks cfg a ans hooks).0 (saved_after (with_hooks cfg a ans hooks).1 saved)
unfolding saved_after
with_hooks-IsSaved cfg a ans saved [] inv = elim (Bool-cases a.seeded) [
  | inl seeded ↦ rw seeded (record { sets = no_alerts-IsSets; stands = λ h. cc })
  | inr bare ↦ simp bare inv
]
with_hooks-IsSaved cfg a ans saved (w ∷ ws) inv =
    conclude_pass-IsSaved a saved (w ∷ ws) (diff cfg ans a.state) (diff-HasSets cfg ans a.state) inv

on_hooks-IsSaved :
    (cfg : SystemAlertsConfig) (a : SystemAlerter) (ans : Answers) (saved : Option SystemAlertState)
    (hooks : Option (List ℕ))
    → IsSaved a saved
    → IsSaved (on_hooks cfg a ans hooks).0 (saved_after (on_hooks cfg a ans hooks).1 saved)
unfolding saved_after
on_hooks-IsSaved cfg a ans saved none inv = inv
on_hooks-IsSaved cfg a ans saved (some hooks) inv = with_hooks-IsSaved cfg a ans saved hooks inv

run-IsSaved :
    (cfg : SystemAlertsConfig) (a : SystemAlerter) (saved : Option SystemAlertState)
    (passes : List Answers)
    → IsSaved a saved
    → IsSaved (run cfg a saved passes).0 (run cfg a saved passes).1
unfolding run pass
run-IsSaved cfg a saved [] inv = inv
run-IsSaved cfg a saved (ans ∷ later) inv =
    run-IsSaved cfg (on_hooks cfg a ans ans.hooks).0
      (saved_after (on_hooks cfg a ans ans.hooks).1 saved) later
      (on_hooks-IsSaved cfg a ans saved ans.hooks inv)

-- Nothing is saved, or sets are.
abbrev pub StartsWell : Option SystemAlertState → Type 0
StartsWell none = Unit
StartsWell (some s) = IsSets s

load-IsSaved : (saved : Option SystemAlertState) → StartsWell saved → IsSaved (load saved) saved
unfolding load
load-IsSaved none h = record { sets = no_alerts-IsSets; stands = λ e. cc }
load-IsSaved (some s) h = record { sets = h; stands = λ e. (s, refl, h, Alike-refl s) }

seeded-load : (s : SystemAlertState) → (load (some s)).seeded ≡ true
unfolding load
seeded-load s = refl

load-IsSets : (s : SystemAlertState) → IsSets s → IsSets (load (some s)).state
unfolding load
load-IsSets s h = h

Alike-load : (s t : SystemAlertState) → Alike s t → Alike (load (some s)).state t
unfolding load
Alike-load s t h = h

-- From the saved sets or from nothing, after any passes, errors of the store included, whose saves
-- succeed and the last of which leaves the alerter with a baseline: a restart does not change what
-- the next pass sends through each webhook and audits, but for the order.
pub pass-load :
    (f : Option ℕ → AlertMessage → ℕ) (cfg : SystemAlertsConfig) (saved : Option SystemAlertState)
    (passes : List Answers) (ans : Answers)
    → StartsWell saved
    → (run cfg (load saved) saved passes).0.seeded ≡ true
    → total (weight f) (pass cfg (run cfg (load saved) saved passes).0 ans).1
      ≡ (total (weight f) (pass cfg (load (run cfg (load saved) saved passes).1) ans).1)
pass-load f cfg saved passes ans well seeded =
    let inv = run-IsSaved cfg (load saved) saved passes (load-IsSaved saved well) in
    let (s, is_saved, sets, alike) = inv.stands seeded in
    rw is_saved (
      total-pass f cfg (run cfg (load saved) saved passes).0 (load (some s)) seeded (seeded-load s)
        inv.sets (load-IsSets s sets) (Alike-load s _ alike) ans)

pass_forgets :
    (cfg : SystemAlertsConfig) (a : SystemAlerter) (ans : Answers)
    → a.seeded ≡ true
    → ans.hooks ≡ some []
    → pass cfg a ans ≡ (record { state = no_alerts; seeded = false }, saves no_alerts ∷ [])
unfolding pass
pass_forgets cfg a ans seeded nobody = ap (on_hooks cfg a ans) nobody ∙ ground arith

-- The effects of a pass with subscribers, where `diff` succeeds.
pass_found :
    (cfg : SystemAlertsConfig) (a : SystemAlerter) (ans : Answers) (w : ℕ) (ws : List ℕ)
    (r : List AlertMessage × SystemAlertState)
    → ans.hooks ≡ some (w ∷ ws)
    → diff cfg ans a.state ≡ some r
    → (pass cfg a ans).1 ≡ (
        announce (w ∷ ws) (if a.seeded then r.0 else [])
        ++ (if not a.seeded || not (null r.0) || state_changed a.state r.1
            then saves r.1 ∷ []
            else []))
unfolding pass conclude_pass
pass_found cfg a ans w ws r somebody found =
    ap (λ h. (on_hooks cfg a ans h).1) somebody ∙ ap (λ d. (conclude_pass a (w ∷ ws) d).1) found

-- After a pass that finds no subscriber the alerter has forgotten its state and lost its baseline, so
-- that the next pass with a subscriber announces nothing; but if the program is started again in
-- between, and the save succeeded, that pass announces every problem that there is. This for an alerter
-- that had a baseline, whatever it had saved.
pub pass_after_reset :
    (cfg : SystemAlertsConfig) (a : SystemAlerter) (saved : Option SystemAlertState)
    (ans later : Answers) (w : ℕ) (ws : List ℕ) (msgs : List AlertMessage) (next : SystemAlertState)
    → a.seeded ≡ true
    → ans.hooks ≡ some []
    → later.hooks ≡ some (w ∷ ws)
    → diff cfg later no_alerts ≡ some (msgs, next)
    → ((pass cfg (pass cfg a ans).0 later).1 ≡ saves next ∷ [])
      × ((es : List Effect) × ((pass cfg (load (saved_after (pass cfg a ans).1 saved)) later).1
            ≡ (announce (w ∷ ws) msgs ++ es)))
unfolding load saved_after
pass_after_reset cfg a saved ans later w ws msgs next seeded nobody somebody found =
    let gone = pass_forgets cfg a ans seeded nobody in
    (
      rw gone (
          pass_found cfg (record { state = no_alerts; seeded = false }) later w ws (msgs, next)
            somebody found),
      (
        if not (null msgs) || state_changed no_alerts next then saves next ∷ [] else [],
        rw gone (
            pass_found cfg (record { state = no_alerts; seeded = true }) later w ws (msgs, next)
              somebody found),
      ),
    )

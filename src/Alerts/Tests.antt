-- ===== src/Alerts/Tests.antt =====
-- Passes of the alerter, and the theorems applied to them.
use rssam.Common.{ℕ, ◌≡◌, refl, true, false, Option, none, some, List, [], ◌∷◌, ◌++◌}
use rssam.Common.Int.{pos}
use rssam.Common.Text.{codes}
use rssam.Alerts.{
  SystemAlertFeed, SystemAlertState, no_alerts, SystemAlertsConfig, Answers, AlertMessage,
  feeds_paused, SystemAlerter, Effect, sends, audits, saves, announce, same_set, layout_diff, diff,
  state_changed, conclude_pass, pass, load, saved_after, run,
}
use rssam.Common.Lists.{total}
use rssam.Alerts.Told.{weight}
use rssam.Alerts.Episodes.{tells, episodes, status, effects, total-effects}
use rssam.Alerts.Restart.{pass-load, pass_after_reset}

alerts : Unit {0}
unfolding same_set layout_diff diff state_changed conclude_pass pass load saved_after run
alerts = tt

abbrev config : SystemAlertsConfig
config = record {
  compare = none;
  current_version = [];
  backup_dir = [];
  backup_max_age = pos 0;
  has_outage = false;
}

abbrev broken : SystemAlertFeed
broken = record { id = 4; title = codes "news"; error = codes "404" }

abbrev silence : Answers
silence = record {
  hooks = some (1 ∷ []);
  paused = some [];
  silent = some [];
  failing = some [];
  latest = [];
  backup_age = none;
  outage = false;
  stats = some [];
}

abbrev trouble : Answers
trouble = record silence { paused = some (broken ∷ []) }

abbrev nobody : Answers
nobody = record silence { hooks = some [] }

abbrev with_broken : SystemAlertState
with_broken = record no_alerts { paused = 4 ∷ [] }

passes_run :
    ((pass config (load none) trouble).1 ≡ saves with_broken ∷ [])
    × ((pass config (load (some no_alerts)) trouble).1 ≡ (
        sends 1 (feeds_paused (broken ∷ []))
        ∷ audits (feeds_paused (broken ∷ []))
        ∷ saves with_broken
        ∷ []))
    × ((pass config (load (some with_broken)) trouble).1 ≡ [])
    × ((run config (load none) none (silence ∷ trouble ∷ [])).1 ≡ some with_broken)
unfolding alerts
passes_run = (refl, refl, refl, refl)

abbrev counted : Option ℕ → AlertMessage → ℕ
counted w m = 1

seeded_run : (run config (load none) none (silence ∷ [])).0.seeded ≡ true
unfolding alerts
seeded_run = refl

pass-load_example :
    total (weight counted) (pass config (run config (load none) none (silence ∷ [])).0 trouble).1
    ≡ (total
        (weight counted)
        (pass config (load (run config (load none) none (silence ∷ [])).1) trouble).1)
pass-load_example = pass-load counted config none (silence ∷ []) trouble tt seeded_run

trouble_found : diff config trouble no_alerts ≡ some (feeds_paused (broken ∷ []) ∷ [], with_broken)
unfolding alerts
trouble_found = refl

abbrev watching : SystemAlerter
watching = record { state = no_alerts; seeded = true }

pass_after_reset_example :
    ((pass config (pass config watching nobody).0 trouble).1 ≡ saves with_broken ∷ [])
    × ((es : List Effect) × ((pass config
            (load (saved_after (pass config watching nobody).1 none))
            trouble).1
          ≡ (announce (1 ∷ []) (feeds_paused (broken ∷ []) ∷ []) ++ es)))
pass_after_reset_example =
    pass_after_reset config watching none nobody trouble 1 [] (feeds_paused (broken ∷ []) ∷ [])
      with_broken refl refl refl trouble_found

total-effects_example :
    total (weight (tells 4)) (effects config watching (trouble ∷ trouble ∷ silence ∷ trouble ∷ []))
    ≡ (episodes 4 (status 4 watching) (trouble ∷ trouble ∷ silence ∷ trouble ∷ []))
total-effects_example = total-effects 4 config watching (trouble ∷ trouble ∷ silence ∷ trouble ∷ [])

two_episodes : episodes 4 (status 4 watching) (trouble ∷ trouble ∷ silence ∷ trouble ∷ []) ≡ 2
two_episodes = refl

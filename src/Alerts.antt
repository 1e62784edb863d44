-- ===== src/Alerts.antt =====
-- internal/worker/system_alerts.go: the alerts about the service itself. A map from ids to `true` is
-- the list of its keys, each once; a saved state is one that `save` has written. A message is what it
-- is about; how it is put into words and sent is left out.
pub mod Sets
pub mod Alike
pub mod Told
pub mod Episodes
pub mod Restart
pub mod Tests
use Prim.Native.Nat.{min}
use rssam.Common.{
  ℕ, Bool, true, false, not, ◌&&◌, ◌||◌, Option, none, some, List, [], ◌∷◌, ◌++◌, map, null, any,
  all, length, keep_if, ltb, ◌==◌, if◌then◌else◌,
}
use rssam.Common.Options.{◌>>=◌}
use rssam.Common.Maps.{Key, same, id_key, text_key}
use rssam.Common.Int.{ℤ, pos, ltb_ℤ}
use rssam.Common.Text.{Text, text_eq, codes}
use rssam.Poll.Schedule.{Duration}

module _ {ℓ} {K : Type ℓ} ⦃key : Key K⦄ where
  abbrev pub has : K → List K → Bool
  has k ks = any (λ j. same j k) ks

  -- `set[k] = true` for each of the keys.
  abbrev pub set_of : List K → List K
  set_of [] = []
  set_of (k ∷ ks) = let rest = set_of ks in if has k rest then rest else k ∷ rest

  -- `sameSet`; `maps.Equal` of maps to `true` is the same test.
  unfoldable pub same_set : List K → List K → Bool
  same_set a b = length a == length b && all (λ k. has k b) a

pub record SystemAlertFeed : Type 0 where
  pub id : ℕ
  pub title : Text
  pub error : Text

pub record SystemAlertWebhook : Type 0 where
  pub id : ℕ
  pub name : Text
  pub last_error : Text

-- `FeedTypeStat`: how many feeds a bridge has, and how many of them saw unknown markup.
pub record FeedTypeStat : Type 0 where
  pub feed_type : Text
  pub layout : ℕ
  pub total : ℕ

pub record SystemAlertState : Type 0 where
  pub paused : List ℕ
  pub silent : List ℕ
  pub webhooks : List ℕ
  pub release : Text
  pub backup : Bool
  pub proxy : Bool
  pub layout : List Text

abbrev pub no_alerts : SystemAlertState
no_alerts = record {
  paused = [];
  silent = [];
  webhooks = [];
  release = [];
  backup = false;
  proxy = false;
  layout = [];
}

-- `compare` is none where LatestRelease or Compare is nil; `has_outage` is whether ProxyOutage is set.
pub record SystemAlertsConfig : Type 0 where
  pub compare : Option (Text → Text → ℤ)
  pub current_version : Text
  pub backup_dir : Text
  pub backup_max_age : Duration
  pub has_outage : Bool

-- What the store and the world answer in one pass; `none` is an error of the store, and for the backup
-- a directory that cannot be read.
pub record Answers : Type 0 where
  pub hooks : Option (List ℕ)
  pub paused : Option (List SystemAlertFeed)
  pub silent : Option (List SystemAlertFeed)
  pub failing : Option (List SystemAlertWebhook)
  pub latest : Text
  pub backup_age : Option Duration
  pub outage : Bool
  pub stats : Option (List FeedTypeStat)

pub data AlertMessage : Type 0 where
  feeds_paused : List SystemAlertFeed → AlertMessage
  feeds_silent : List SystemAlertFeed → AlertMessage
  webhooks_failing : List SystemAlertWebhook → AlertMessage
  update : Text → AlertMessage
  backup_stale : AlertMessage
  proxy_down : AlertMessage
  bridge_layout : FeedTypeStat → AlertMessage
  bridge_recovered : Text → AlertMessage

abbrev pub feed_id : SystemAlertFeed → ℕ
feed_id f = f.id

abbrev pub hook_id : SystemAlertWebhook → ℕ
hook_id w = w.id

-- The ones that the last state does not have.
abbrev pub new_ones : {A : Type 0} → (A → ℕ) → List ℕ → List A → List A
new_ones id_of old items = keep_if (λ a. not (has (id_of a) old)) items

abbrev pub message_of : {A : Type 0} → (List A → AlertMessage) → List A → List AlertMessage
message_of message items = if null items then [] else message items ∷ []

abbrev pub is_update : SystemAlertsConfig → Text → Text → Bool
is_update cfg old latest = elim cfg.compare [
  | none ↦ false
  | some compare ↦
      not (null cfg.current_version)
      && not (text_eq cfg.current_version (codes "dev"))
      && not (null latest)
      && not (text_eq latest old)
      && ltb_ℤ (compare cfg.current_version latest) (pos 0)
]

abbrev is_older : Duration → Option Duration → Bool
is_older limit none = false
is_older limit (some age) = ltb_ℤ limit age

abbrev pub backup_is_stale : SystemAlertsConfig → Option Duration → Bool
backup_is_stale cfg age =
    not (null cfg.backup_dir) && ltb_ℤ (pos 0) cfg.backup_max_age && is_older cfg.backup_max_age age

-- `layoutDiff`: the bridges in an incident, and the messages.
abbrev pub layout_incident_min : ℕ
layout_incident_min = 3

abbrev pub is_incident : List Text → FeedTypeStat → Bool
is_incident old st = not (
    st.layout == 0
    || (not (has st.feed_type old) && ltb st.layout (min layout_incident_min st.total)))

abbrev pub incidents : List Text → List FeedTypeStat → List FeedTypeStat
incidents old stats = keep_if (is_incident old) stats

abbrev pub type_of : FeedTypeStat → Text
type_of st = st.feed_type

unfoldable pub layout_diff : List Text → List FeedTypeStat → List AlertMessage × List Text
layout_diff old stats =
    let cur = set_of (map type_of (incidents old stats)) in
    (
      map bridge_layout (keep_if (λ st. not (has st.feed_type old)) (incidents old stats))
          ++ map bridge_recovered (keep_if (λ bridge. not (has bridge cur)) old),
      cur,
    )

-- The messages and the next state, from what the store has listed.
abbrev pub diff_listed :
    SystemAlertsConfig
    → Answers
    → SystemAlertState
    → List SystemAlertFeed
    → List SystemAlertFeed
    → List SystemAlertWebhook
    → List FeedTypeStat
    → List AlertMessage × SystemAlertState
diff_listed cfg ans old paused silent failing stats =
    let updates = is_update cfg old.release ans.latest in
    let stale = backup_is_stale cfg ans.backup_age in
    let down = cfg.has_outage && ans.outage in
    let layout = layout_diff old.layout stats in
    (
      message_of feeds_paused (new_ones feed_id old.paused paused)
          ++ (message_of feeds_silent (new_ones feed_id old.silent silent)
              ++ (message_of webhooks_failing (new_ones hook_id old.webhooks failing)
                  ++ ((if updates then update ans.latest ∷ [] else [])
                      ++ ((if stale && not old.backup then backup_stale ∷ [] else [])
                          ++ ((if down && not old.proxy then proxy_down ∷ [] else [])
                              ++ layout.0))))),
      record {
        paused = set_of (map feed_id paused);
        silent = set_of (map feed_id silent);
        webhooks = set_of (map hook_id failing);
        release = if updates then ans.latest else old.release;
        backup = stale;
        proxy = down;
        layout = layout.1;
      },
    )

-- `diff`; `none` is an error.
unfoldable pub diff :
    SystemAlertsConfig → Answers → SystemAlertState → Option (List AlertMessage × SystemAlertState)
diff cfg ans old = do
  paused ← ans.paused
  silent ← ans.silent
  failing ← ans.failing
  stats ← ans.stats
  some (diff_listed cfg ans old paused silent failing stats)

abbrev pub same_bool : Bool → Bool → Bool
same_bool true b = b
same_bool false b = not b

unfoldable pub state_changed : SystemAlertState → SystemAlertState → Bool
state_changed old cur =
    not (same_set old.paused cur.paused)
    || not (same_set old.silent cur.silent)
    || not (same_set old.webhooks cur.webhooks)
    || not (text_eq old.release cur.release)
    || not (same_bool old.backup cur.backup)
    || not (same_bool old.proxy cur.proxy)
    || not (same_set old.layout cur.layout)

pub record SystemAlerter : Type 0 where
  pub state : SystemAlertState
  pub seeded : Bool

pub data Effect : Type 0 where
  sends : ℕ → AlertMessage → Effect
  audits : AlertMessage → Effect
  saves : SystemAlertState → Effect

abbrev pub announce : List ℕ → List AlertMessage → List Effect
announce hooks [] = []
announce hooks (m ∷ ms) = map (λ w. sends w m) hooks ++ (audits m ∷ announce hooks ms)

-- The end of a pass, from what `diff` returns.
unfoldable pub conclude_pass :
    SystemAlerter
    → List ℕ
    → Option (List AlertMessage × SystemAlertState)
    → SystemAlerter × List Effect
conclude_pass a hooks none = (a, [])
conclude_pass a hooks (some (msgs, next)) =
    let changed = not a.seeded || not (null msgs) || state_changed a.state next in
    (
      record { state = next; seeded = true },
      announce hooks (if a.seeded then msgs else []) ++ (if changed then saves next ∷ [] else []),
    )

abbrev pub with_hooks :
    SystemAlertsConfig → SystemAlerter → Answers → List ℕ → SystemAlerter × List Effect
with_hooks cfg a ans [] =
    if a.seeded
    then (record { state = no_alerts; seeded = false }, saves no_alerts ∷ [])
    else (a, [])
with_hooks cfg a ans (w ∷ ws) = conclude_pass a (w ∷ ws) (diff cfg ans a.state)

abbrev pub on_hooks :
    SystemAlertsConfig → SystemAlerter → Answers → Option (List ℕ) → SystemAlerter × List Effect
on_hooks cfg a ans none = (a, [])
on_hooks cfg a ans (some hooks) = with_hooks cfg a ans hooks

unfoldable pub pass : SystemAlertsConfig → SystemAlerter → Answers → SystemAlerter × List Effect
pass cfg a ans = on_hooks cfg a ans ans.hooks

-- A start, from the saved state if there is one.
unfoldable pub load : Option SystemAlertState → SystemAlerter
load none = record { state = no_alerts; seeded = false }
load (some state) = record { state = state; seeded = true }

-- What the store has saved after the effects, whose writes succeed.
unfoldable pub saved_after : List Effect → Option SystemAlertState → Option SystemAlertState
saved_after [] saved = saved
saved_after (saves state ∷ es) saved = saved_after es (some state)
saved_after (sends w m ∷ es) saved = saved_after es saved
saved_after (audits m ∷ es) saved = saved_after es saved

-- Passes one after the other, with what the store has saved.
unfoldable pub run :
    SystemAlertsConfig
    → SystemAlerter
    → Option SystemAlertState
    → List Answers
    → SystemAlerter × Option SystemAlertState
run cfg a saved [] = (a, saved)
run cfg a saved (ans ∷ later) = let r = pass cfg a ans in run cfg r.0 (saved_after r.1 saved) later

-- ===== src/Worker/Polling/Rounds.antt =====
-- A feed or a bridge that is deferred is not handed out before its time, and the dispatcher looks again
-- when its time has come.
use Prim.Native.Nat.{min}
use rssam.Worker.Inflight.{start}
use rssam.Common.{
  ℕ, ◌-◌, ◌≡◌, refl, ap, ◌∙◌, Bool, true, false, Option, none, some, List, [], ◌∷◌, ◌++◌, All,
  arith, Bool-cases, inl, inr, if◌then◌else◌, any, leb, ◌==◌,
}
use rssam.Common.Int.{pos, ◌+ℤ◌, ◌-ℤ◌, ◌≤ℤ◌, ◌<ℤ◌, max_ℤ, -ℤ_parts, ≤ℤ_trans}
use rssam.Common.Maps.{id_key, text_key, IsMap}
use rssam.Common.Text.{Text}
use rssam.Poll.Schedule.{Duration, Time, second}
use rssam.Worker.Pauses.{DuePauses, before, active, paused_until}
use rssam.Worker.Pauses.Laws.{IsEarliest, active-IsEarliest}
use rssam.Worker.Polling.{
  Deferral, defer_none, defer_feed, defer_bridge, Feeds, after_work, Query, query_of, after_query,
  Event, worked, queried, handed_out, after_event, after_events, earlier_resume, idle_wait, Round,
  nap, hand, DueStore, after_listing, dispatch_round,
}
use rssam.Worker.Pauses.Lasting.{Lasts, Lasts-pause, Lasts-new, Lasts-active, active_of_Lasts}

any-append :
    {A : Type 0} (p : A → Bool) (xs ys : List A) → any p ys ≡ true → any p (xs ++ ys) ≡ true
any-append p [] ys h = h
any-append p (x ∷ xs) ys h = ground (arith, any-append p xs ys h)

-- The queries stand before a moment.
abbrev pub IsBefore : Time → Event → Type 0
IsBefore until (queried now) = now <ℤ until
IsBefore until (worked id feed_type at deferral) = Unit
IsBefore until (handed_out id at) = Unit

Lasts-after_work :
    (id : ℕ) (until : Time) (j : ℕ) (feed_type : Text) (at : Time) (d : Deferral) (s : Feeds)
    → Lasts id until s.deferred_feeds
    → Lasts id until (after_work j feed_type at d s).deferred_feeds
unfolding after_work
Lasts-after_work id until j feed_type at defer_none s h = h
Lasts-after_work id until j feed_type at (defer_feed u) s h =
    Lasts-pause id j until u s.deferred_feeds h
Lasts-after_work id until j feed_type at (defer_bridge u) s h = h

Lasts-after_events :
    (id : ℕ) (until : Time) (es : List Event) (s : Feeds)
    → pos 0 <ℤ until
    → All (IsBefore until) es
    → Lasts id until s.deferred_feeds
    → Lasts id until (after_events es s).deferred_feeds
unfolding after_events after_event after_query
Lasts-after_events id until [] s k early h = h
Lasts-after_events id until (worked j feed_type at d ∷ es) s k early h =
    Lasts-after_events id until es (after_work j feed_type at d s) k early.1
      (Lasts-after_work id until j feed_type at d s h)
Lasts-after_events id until (queried now ∷ es) s k early h =
    Lasts-after_events id until es (after_query now s) k early.1
      (Lasts-active id now until s.deferred_feeds early.0 k h)
Lasts-after_events id until (handed_out j at ∷ es) s k early h =
    Lasts-after_events id until es (record s { inflight = start j at s.inflight }) k early.1 h

-- A feed that is deferred until a moment is among those that each earlier query leaves out, whatever
-- the workers and the dispatcher do meanwhile.
excluded_until :
    (id : ℕ) (feed_type : Text) (at until now : Time) (es : List Event) (s : Feeds)
    → IsMap s.deferred_feeds
    → pos 0 <ℤ until
    → All (IsBefore until) es
    → now <ℤ until
    → any
        (λ j. j == id)
        (query_of now
          (after_events es (after_work id feed_type at (defer_feed until) s))).exclude_feeds
      ≡ true
unfolding query_of after_work
excluded_until id feed_type at until now es s h k early soon =
    any-append (λ j. j == id) _ _
      (active_of_Lasts id now until _ soon k (
        Lasts-after_events id until es (after_work id feed_type at (defer_feed until) s) k early
          (Lasts-new id until s.deferred_feeds h)))

after_listing-hand :
    (store : DueStore) (tick : Duration) (now : Time) (q : Query) (o : Option (List ℕ))
    (due : List ℕ)
    → after_listing store tick now q o ≡ hand due
    → o ≡ some due
after_listing-hand store tick now q none due h = cc
after_listing-hand store tick now q (some []) due h = cc
after_listing-hand store tick now q (some (d ∷ rest)) due h = cc

-- The feeds that a round hands out are those that the store lists for its query.
hand-dispatch_round :
    (store : DueStore) (tick : Duration) (pool : ℕ) (paused : Bool) (capacity queued : ℕ)
    (now : Time) (s : Feeds) (due : List ℕ)
    → dispatch_round store tick pool paused capacity queued now s ≡ hand due
    → store.list_feeds_due (min pool (capacity - queued)) (query_of now s) ≡ some due
unfolding dispatch_round
hand-dispatch_round store tick pool true capacity queued now s due h = cc
hand-dispatch_round store tick pool false capacity queued now s due h =
    handed (leb capacity queued) h
  where
    handed :
        (full : Bool)
        → (if full
            then nap (idle_wait now (some (now +ℤ pos second)) (pos second))
            else (let q = query_of now s in
                after_listing store tick now q
                  (store.list_feeds_due (min pool (capacity - queued)) q)))
          ≡ hand due
        → store.list_feeds_due (min pool (capacity - queued)) (query_of now s) ≡ some due
    handed true e = cc
    handed false e = after_listing-hand store tick now (query_of now s) _ due e

-- Where the store lists none of the feeds that its query leaves out: a feed that is deferred until a
-- moment is handed to no worker before it, whatever the workers and the dispatcher do meanwhile.
pub deferred-dispatch_round :
    (store : DueStore) (tick : Duration) (pool : ℕ) (paused : Bool) (capacity queued : ℕ) (id : ℕ)
    (feed_type : Text) (at until now : Time) (es : List Event) (s : Feeds) (due : List ℕ)
    → ((limit : ℕ) (q : Query) (listed : List ℕ)
        → store.list_feeds_due limit q ≡ some listed
        → any (λ j. j == id) q.exclude_feeds ≡ true
        → any (λ j. j == id) listed ≡ false)
    → IsMap s.deferred_feeds
    → pos 0 <ℤ until
    → All (IsBefore until) es
    → now <ℤ until
    → dispatch_round store tick pool paused capacity queued now
        (after_events es (after_work id feed_type at (defer_feed until) s))
      ≡ hand due
    → any (λ j. j == id) due ≡ false
deferred-dispatch_round store tick pool paused capacity queued id feed_type at until now es s due
      leaves_out h k early soon round =
    leaves_out (min pool (capacity - queued)) (query_of now later) due
      (hand-dispatch_round store tick pool paused capacity queued now later due round)
      (excluded_until id feed_type at until now es s h k early soon)
  where
    later : Feeds
    later = after_events es (after_work id feed_type at (defer_feed until) s)

idle_wait_next :
    (now next : Time) (tick : Duration)
    → idle_wait now (some next) tick ≤ℤ max_ℤ (next -ℤ now) (pos second)
unfolding idle_wait
idle_wait_next now next tick = ground arith

earlier_resume_le :
    (o : Option Time) (resume : Time)
    → (r : Time) × (earlier_resume o (some resume) ≡ some r) × (r ≤ℤ resume)
earlier_resume_le none resume = (resume, refl, omega arith)
earlier_resume_le (some next) resume = elim (Bool-cases (before resume next)) [
  | inl first ↦ (resume, rw first refl, omega arith)
  | inr later ↦ (next, rw later refl, ground arith)
]

earlier_resume_left :
    (resume : Time) (o : Option Time)
    → (r : Time) × (earlier_resume (some resume) o ≡ some r) × (r ≤ℤ resume)
earlier_resume_left resume none = (resume, refl, omega arith)
earlier_resume_left resume (some bridge) = elim (Bool-cases (before bridge resume)) [
  | inl first ↦ (bridge, rw first refl, ground arith)
  | inr later ↦ (resume, rw later refl, omega arith)
]

wait_le : (now r u : Time) → r ≤ℤ u → max_ℤ (r -ℤ now) (pos second) ≤ℤ max_ℤ (u -ℤ now) (pos second)
wait_le now r u h = ground (arith, -ℤ_parts r now, -ℤ_parts u now)

resume_of :
    (now until : Time) (p : DuePauses ℕ) (o : Option Time) (id : ℕ)
    → IsEarliest now p o
    → paused_until id now p ≡ some until
    → (r : Time) × (o ≡ some r) × (r ≤ℤ until)
resume_of now until p none id none_paused h = absurd (ground (arith, none_paused id, h))
resume_of now until p (some r) id earliest h = (r, refl, earliest.0 id until h)

nap_of_nothing :
    (store : DueStore) (tick : Duration) (now : Time) (q : Query) (resume : Option Time) (u : Time)
    (full : Bool) (listed : Option (List ℕ)) (other : Round)
    → full ≡ false
    → listed ≡ some []
    → q.resume ≡ resume
    → earlier_resume (store.next_feed_due_at q) resume ≡ some u
    → (if full then other else after_listing store tick now q listed)
      ≡ nap (idle_wait now (some u) tick)
nap_of_nothing store tick now q resume u full listed other room nothing resumes wakes =
    simp (room, nothing, resumes, wakes) refl

-- A round that finds no feed due while one is deferred waits until that one resumes at the latest, or
-- for a second where it resumes earlier.
pub deferred_resumes :
    (store : DueStore) (tick : Duration) (pool capacity queued : ℕ) (now until : Time) (s : Feeds)
    (id : ℕ)
    → IsMap s.deferred_feeds
    → leb capacity queued ≡ false
    → store.list_feeds_due (min pool (capacity - queued)) (query_of now s) ≡ some []
    → paused_until id now s.deferred_feeds ≡ some until
    → (d : Duration) × (dispatch_round store tick pool false capacity queued now s ≡ nap d)
      × (d ≤ℤ max_ℤ (until -ℤ now) (pos second))
unfolding dispatch_round query_of
deferred_resumes store tick pool capacity queued now until s id h room nothing paused =
    let (r, first, r_le) =
      resume_of now until s.deferred_feeds (active now s.deferred_feeds).2 id
        (active-IsEarliest now s.deferred_feeds h) paused in
    let (t, both, t_le) = earlier_resume_left r (active now s.deferred_bridges).2 in
    let (u, wakes, u_le) = earlier_resume_le (store.next_feed_due_at (query_of now s)) t in
    (
      idle_wait now (some u) tick,
      nap_of_nothing store tick now (query_of now s) (some t) u (leb capacity queued) _ _ room
          nothing (ap (λ o. earlier_resume o (active now s.deferred_bridges).2) first ∙ both) wakes,
      ≤ℤ_trans (idle_wait now (some u) tick) (max_ℤ (u -ℤ now) (pos second)) _
          (idle_wait_next now u tick)
          (wait_le now u until (≤ℤ_trans u r until (≤ℤ_trans u t r u_le t_le) r_le)),
    )

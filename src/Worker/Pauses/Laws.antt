-- ===== src/Worker/Pauses/Laws.antt =====
-- Pauses only grow, and the active ones are those whose moment has not come.
use rssam.Common.{
  ◌≡◌, refl, sym, ◌∙◌, Bool, true, false, Option, none, some, [], ◌∷◌, any, arith, if◌then◌else◌,
  Bool-cases, inl, inr,
}
use rssam.Common.Int.{◌≤ℤ◌, max_ℤ}
use rssam.Common.Maps.{Key, same, find, IsMap, find-insert}
use rssam.Poll.Schedule.{Time}
use rssam.Worker.Pauses.{after, before, moment, DuePauses, pause, active, earlier, paused_until}

abbrev pub is_some {κ} : {A : Type κ} → Option A → Bool
is_some none = false
is_some (some a) = true

module _ {ℓ} {K : Type ℓ} ⦃key : Key K⦄ where
  -- Pausing an id never shortens its pause: it then ends at the later of the two moments; and the
  -- pauses of all other ids stay.
  pub find-pause :
      (id j : K) (until : Time) (p : DuePauses K)
      → moment (find j (pause id until p))
        ≡ (if same id j then max_ℤ (moment (find j p)) until else moment (find j p))
  unfolding pause
  find-pause id j until p = ground (arith, find-insert id j until p, key.same_iff id j)

  -- The ids that `active` returns are exactly those that `pausedUntil` reports.
  pub active_iff :
      (now : Time) (id : K) (p : DuePauses K)
      → IsMap p
      → any (λ j. same j id) (active now p).1 ≡ is_some (paused_until id now p)
  unfolding active paused_until find
  active_iff now id [] h = refl
  active_iff now id ((j, until) ∷ p) h =
      ground (arith, active_iff now id p h.1, key.same_iff j id, h.0)

  -- Nothing is paused, or the moment is that of a pause and no pause ends before it.
  abbrev pub IsEarliest : Time → DuePauses K → Option Time → Type ℓ
  IsEarliest now p none = (id : K) → paused_until id now p ≡ none
  IsEarliest now p (some resume) =
      ((id : K) (until : Time) → paused_until id now p ≡ some until → resume ≤ℤ until)
      × ((id : K) × (paused_until id now p ≡ some resume))

  paused_until-over :
      (now : Time) (j : K) (until : Time) (p : DuePauses K)
      → after until now ≡ false
      → find j p ≡ none
      → (id : K) → paused_until id now ((j, until) ∷ p) ≡ paused_until id now p
  unfolding paused_until find
  paused_until-over now j until p over h id = ground (arith, key.same_iff j id)

  paused_until-head :
      (now : Time) (j : K) (until : Time) (p : DuePauses K)
      → after until now ≡ true
      → (id : K)
      → paused_until id now ((j, until) ∷ p)
        ≡ (if same j id then some until else paused_until id now p)
  unfolding paused_until find
  paused_until-head now j until p on id = ground arith

  paused_until-none :
      (now : Time) (j : K) (p : DuePauses K) → find j p ≡ none → paused_until j now p ≡ none
  unfolding paused_until
  paused_until-none now j p h = rw h

  earlier-IsEarliest :
      (now : Time) (j : K) (until : Time) (p : DuePauses K) (o : Option Time)
      → after until now ≡ true
      → find j p ≡ none
      → IsEarliest now p o
      → IsEarliest now ((j, until) ∷ p) (earlier until o)
  earlier-IsEarliest now j until p none on h rest = (
    λ id u e. ground (arith, paused_until-head now j until p on id, rest id),
    (j, ground (arith, paused_until-head now j until p on j, key.same_iff j j)),
  )
  earlier-IsEarliest now j until p (some resume) on h rest =
      elim (Bool-cases (before until resume)) [
        | inl first ↦ rw first (
          λ id u e. ground (arith, paused_until-head now j until p on id, rest.0 id u),
          (j, ground (arith, paused_until-head now j until p on j, key.same_iff j j)),
        )
        | inr later ↦ rw later (
          λ id u e. ground (arith, paused_until-head now j until p on id, rest.0 id u),
          (
            rest.1.0,
            ground (
              arith,
              paused_until-head now j until p on rest.1.0,
              key.same_iff j rest.1.0,
              paused_until-none now j p h,
              rest.1.1,
            ),
          ),
        )
      ]

  over-IsEarliest :
      (now : Time) (j : K) (until : Time) (p : DuePauses K) (o : Option Time)
      → after until now ≡ false
      → find j p ≡ none
      → IsEarliest now p o
      → IsEarliest now ((j, until) ∷ p) o
  over-IsEarliest now j until p none over h rest =
      λ id. paused_until-over now j until p over h id ∙ rest id
  over-IsEarliest now j until p (some resume) over h rest = (
    λ id u e. rest.0 id u (sym (paused_until-over now j until p over h id) ∙ e),
    (rest.1.0, paused_until-over now j until p over h rest.1.0 ∙ rest.1.1),
  )

  -- The moment that `active` returns is that of an active pause, and no active pause ends before it;
  -- it returns none only if there is no active pause.
  pub active-IsEarliest :
      (now : Time) (p : DuePauses K) → IsMap p → IsEarliest now p (active now p).2
  unfolding active paused_until find
  active-IsEarliest now [] h = λ id. refl
  active-IsEarliest now ((j, until) ∷ p) h = elim (Bool-cases (after until now)) [
    | inl on ↦
        rw on
          (earlier-IsEarliest now j until p (active now p).2 on h.0 (active-IsEarliest now p h.1))
    | inr over ↦
        rw over
          (over-IsEarliest now j until p (active now p).2 over h.0 (active-IsEarliest now p h.1))
  ]

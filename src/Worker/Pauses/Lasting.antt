-- ===== src/Worker/Pauses/Lasting.antt =====
-- A pause lasts until its moment, whatever is paused or forgotten meanwhile.
use rssam.Common.{
  ◌≡◌, refl, ◌∙◌, true, Option, none, some, [], ◌∷◌, arith, Bool-cases, inl, inr, any,
}
use rssam.Common.Int.{pos, ◌≤ℤ◌, ◌<ℤ◌}
use rssam.Common.Maps.{Key, same, id_key, text_key, find, IsMap, insert-IsMap}
use rssam.Poll.Schedule.{Time}
use rssam.Worker.Pauses.{DuePauses, after, moment, pause, active, still, paused_until}
use rssam.Worker.Pauses.Laws.{find-pause, active_iff, is_some}

still_lasts :
    (now until : Time) (o : Option Time)
    → now <ℤ until
    → pos 0 <ℤ until
    → until ≤ℤ moment o
    → still now o ≡ o
still_lasts now until none h k l = refl
still_lasts now until (some u) h k l = ground arith

still_on :
    (now until : Time) (o : Option Time)
    → now <ℤ until
    → pos 0 <ℤ until
    → until ≤ℤ moment o
    → is_some (still now o) ≡ true
still_on now until none h k l = absurd (omega (arith, l, k))
still_on now until (some u) h k l = ground arith

module _ {ℓ} {K : Type ℓ} ⦃key : Key K⦄ where
  -- A pause that ends no earlier than a moment.
  abbrev pub Lasts : K → Time → DuePauses K → Type 0
  Lasts id until p = IsMap p × (until ≤ℤ moment (find id p))

  pause-IsMap : (id : K) (until : Time) (p : DuePauses K) → IsMap p → IsMap (pause id until p)
  unfolding pause
  pause-IsMap id until p h = elim (Bool-cases (after until (moment (find id p)))) [
    | inl longer ↦ rw longer (insert-IsMap id until p h)
    | inr kept ↦ rw kept h
  ]

  pub Lasts-pause :
      (id j : K) (until u : Time) (p : DuePauses K)
      → Lasts id until p
      → Lasts id until (pause j u p)
  Lasts-pause id j until u p h = (pause-IsMap j u p h.0, ground (arith, find-pause j id u p, h.1))

  pub Lasts-new :
      (id : K) (until : Time) (p : DuePauses K) → IsMap p → Lasts id until (pause id until p)
  Lasts-new id until p h =
      (pause-IsMap id until p h, ground (arith, find-pause id id until p, key.same_iff id id))

  find-active :
      (now : Time) (id : K) (p : DuePauses K)
      → IsMap p
      → find id (active now p).0 ≡ still now (find id p)
  unfolding active find
  find-active now id [] h = refl
  find-active now id ((j, u) ∷ p) h =
      ground (arith, find-active now id p h.1, key.same_iff j id, h.0)

  active-IsMap : (now : Time) (p : DuePauses K) → IsMap p → IsMap (active now p).0
  unfolding active
  active-IsMap now [] h = tt
  active-IsMap now ((j, u) ∷ p) h = elim (Bool-cases (after u now)) [
    | inl on ↦ rw on (ground (arith, find-active now j p h.1, h.0), active-IsMap now p h.1)
    | inr over ↦ rw over (active-IsMap now p h.1)
  ]

  pub Lasts-active :
      (id : K) (now until : Time) (p : DuePauses K)
      → now <ℤ until
      → pos 0 <ℤ until
      → Lasts id until p
      → Lasts id until (active now p).0
  Lasts-active id now until p h k l = (
    active-IsMap now p l.0,
    rw (find-active now id p l.0, still_lasts now until (find id p) h k l.1) l.1,
  )

  pub active_of_Lasts :
      (id : K) (now until : Time) (p : DuePauses K)
      → now <ℤ until
      → pos 0 <ℤ until
      → Lasts id until p
      → any (λ j. same j id) (active now p).1 ≡ true
  unfolding paused_until
  active_of_Lasts id now until p h k l =
      active_iff now id p l.0 ∙ still_on now until (find id p) h k l.1

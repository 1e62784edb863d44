-- ===== src/Service/HostLimit/Laws.antt =====
-- No host is hit by more polls than the limit.
use rssam.Common.{
  ℕ, suc, ◌+◌, ◌-◌, ◌≤◌, ◌≡◌, refl, true, false, List, [], ◌∷◌, ◌++◌, ap, ◌∙◌, null, arith,
  if◌then◌else◌, leb, Bool-cases, inl, inr,
}
use rssam.Common.Text.{Text, text_eq, text_eq_iff, times, times-append}
use rssam.Common.Maps.{text_key, find, insert, delete, find-insert, find-delete}
use rssam.Service.HostLimit.{
  HostLimiter, count, acquire, release, Polls, begin_poll, Step, begins, ends, Reach, here,
  then_step, idle,
}

count-insert :
    (host j : Text) (n : ℕ) (l : HostLimiter)
    → count j (record l { busy = insert host n l.busy }) ≡ (if text_eq host j then n else count j l)
count-insert host j n l = ground (arith, find-insert host j n l.busy)

count-delete :
    (host j : Text) (l : HostLimiter)
    → count j (record l { busy = delete host l.busy }) ≡ (if text_eq host j then 0 else count j l)
count-delete host j l = ground (arith, find-delete host j l.busy)

count-same : (host j : Text) (l : HostLimiter) → text_eq host j ≡ true → count host l ≡ count j l
count-same host j l h = rw ((text_eq_iff host j).0 h)

-- For a known host a slot is granted exactly if fewer than the limit are taken; a granted slot is
-- counted, for that host only.
pub count-acquire :
    (host j : Text) (l : HostLimiter)
    → null host ≡ false
    → ((acquire host l).1 ≡ (if leb l.limit (count host l) then false else true))
      × (count j (acquire host l).0 ≡ (
          if (acquire host l).1
          then (if text_eq host j then suc (count j l) else count j l)
          else count j l))
unfolding acquire
count-acquire host j l known = elim (Bool-cases (leb l.limit (count host l))) [
  | inl full ↦ rw (known, full) (refl, refl)
  | inr free ↦
      rw (known, free)
        (refl, ground (arith, count-insert host j (count host l + 1) l, count-same host j l))
]

count-release :
    (host j : Text) (l : HostLimiter)
    → null host ≡ false
    → count j (release host l) ≡ (if text_eq host j then count j l - 1 else count j l)
unfolding release
count-release host j l known = elim (Bool-cases (leb (count host l) 1)) [
  | inl last ↦ rw (known, last) (ground (arith, count-delete host j l, count-same host j l))
  | inr more ↦
      rw (known, more)
        (ground (arith, count-insert host j (count host l - 1) l, count-same host j l))
]

acquire_unknown : (host : Text) (l : HostLimiter) → null host ≡ true → (acquire host l).0 ≡ l
unfolding acquire
acquire_unknown host l unknown = rw unknown refl

release_unknown : (host : Text) (l : HostLimiter) → null host ≡ true → release host l ≡ l
unfolding release
release_unknown host l unknown = rw unknown refl

-- A granted slot that is released leaves every count as it was.
pub release-acquire :
    (host j : Text) (l : HostLimiter)
    → (acquire host l).1 ≡ true
    → count j (release host (acquire host l).0) ≡ count j l
release-acquire host j l granted = elim (Bool-cases (null host)) [
  | inl unknown ↦ rw (acquire_unknown host l unknown, release_unknown host l unknown) refl
  | inr known ↦
      ground
        (arith, count-release host j (acquire host l).0 known, (count-acquire host j l known).1)
]

limit-acquire : (host : Text) (l : HostLimiter) → (acquire host l).0.limit ≡ l.limit
unfolding acquire
limit-acquire host l = ground arith

limit-release : (host : Text) (l : HostLimiter) → (release host l).limit ≡ l.limit
unfolding release
limit-release host l = ground arith

-- The limit stays, and the slots that are taken of a known host are its polls that run, at most the
-- limit of them.
abbrev IsCounted : ℕ → Polls → Type 0
IsCounted limit p =
    (p.limiter.limit ≡ limit)
    × ((j : Text)
        → null j ≡ false
        → (count j p.limiter ≡ times j p.running) × (times j p.running ≤ limit))

other_host : (host j : Text) → null host ≡ true → null j ≡ false → text_eq host j ≡ false
other_host [] [] h k = cc
other_host [] (c ∷ j) h k = refl
other_host (c ∷ host) j h k = cc

begin_poll-IsCounted :
    (limit : ℕ) (host : Text) (p : Polls)
    → IsCounted limit p
    → (j : Text) → null j ≡ false
    → (count j (begin_poll host p).limiter ≡ times j (begin_poll host p).running)
      × (times j (begin_poll host p).running ≤ limit)
begin_poll-IsCounted limit host p h j known_j = elim (Bool-cases (null host)) [
  | inl unknown ↦
      rw (acquire_unknown host p.limiter unknown)
        (ground (arith, other_host host j unknown known_j, h.1 j known_j))
  | inr known ↦
      ground
        (arith, h, h.1 j known_j, count-acquire host j p.limiter known, count-same host j p.limiter)
]

times-middle :
    (j : Text) (before : List Text) (host : Text) (after : List Text)
    → times j (before ++ host ∷ after)
      ≡ (if text_eq host j then suc (times j (before ++ after)) else times j (before ++ after))
times-middle j before host after =
    ground (arith, times-append j before (host ∷ after), times-append j before after)

count-ended :
    (host j : Text) (l : HostLimiter)
    → null j ≡ false
    → count j (release host l) ≡ (if text_eq host j then count j l - 1 else count j l)
count-ended host j l known_j = elim (Bool-cases (null host)) [
  | inl unknown ↦ rw (release_unknown host l unknown, other_host host j unknown known_j) refl
  | inr known ↦ count-release host j l known
]

Step-IsCounted : (limit : ℕ) {p q : Polls} → IsCounted limit p → Step p q → IsCounted limit q
Step-IsCounted limit {p} h (begins host) =
    (limit-acquire host p.limiter ∙ h.0, begin_poll-IsCounted limit host p h)
Step-IsCounted limit {p} h (ends before host after running) = (
  limit-release host p.limiter ∙ h.0,
  λ j known_j. ground (
    arith,
    h.1 j known_j,
    ap (times j) running,
    times-middle j before host after,
    count-ended host j p.limiter known_j,
  ),
)

idle-IsCounted : (limit : ℕ) → IsCounted limit (idle limit)
unfolding find
idle-IsCounted limit = (refl, λ j known_j. (refl, omega arith))

Reach-IsCounted : (limit : ℕ) {p : Polls} → Reach (idle limit) p → IsCounted limit p
Reach-IsCounted limit here = idle-IsCounted limit
Reach-IsCounted limit (then_step before step) =
    Step-IsCounted limit (Reach-IsCounted limit before) step

-- However the background polls interleave, each ending once with its release, no more polls of a known
-- host run at a time than the limit, if no slot is taken at the start.
pub times-running :
    (limit : ℕ) (p : Polls) (host : Text)
    → Reach (idle limit) p
    → null host ≡ false
    → times host p.running ≤ limit
times-running limit p host reached known = ((Reach-IsCounted limit reached).1 host known).1

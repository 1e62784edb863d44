-- ===== src/Service/TtlCache/Laws.antt =====
-- What `get` returns after each of the calls that change the cache.
use rssam.Common.{
  ◌≡◌, refl, true, ◌||◌, Option, none, some, arith, if◌then◌else◌, Bool-cases, inl, inr,
}
use rssam.Common.Int.{ℤ, pos, ◌-ℤ◌, ◌≤ℤ◌, leb_ℤ, eq_ℤ, eq_ℤ_iff, -ℤ_parts}
use rssam.Common.Maps.{int_key, find, insert, delete, find-insert, find-delete}
use rssam.Poll.Schedule.{Duration, Time}
use rssam.Service.TtlCache.{TtlCacheItem, TtlCache, is_expired, found, get, put, invalidate}

module _ {ℓ} {V : Type ℓ} where
  -- What `get` returns of an item.
  abbrev pub fresh : Duration → Time → Option (TtlCacheItem V) → Option V
  fresh ttl now none = none
  fresh ttl now (some it) = if is_expired ttl now it then none else some it.val

  get-fresh :
      (id : ℤ) (ttl : Duration) (now : Time) (c : TtlCache V)
      → (get id ttl now c).1 ≡ fresh ttl now (find id c)
  unfolding get
  get-fresh id ttl now c = by_item (find id c)
    where
      by_item : (o : Option (TtlCacheItem V)) → (found id ttl now o c).1 ≡ fresh ttl now o
      by_item none = refl
      by_item (some it) = ground arith

  -- After `put`, `get` returns the value to its id until the time to live has passed, and nothing
  -- from then on; what it returns to other ids stays.
  pub get-put :
      (id j : ℤ) (v : V) (at now : Time) (ttl : Duration) (c : TtlCache V)
      → (get j ttl now (put id v at c)).1 ≡ (
          if eq_ℤ id j
          then (if leb_ℤ ttl (now -ℤ at) then none else some v)
          else (get j ttl now c).1)
  unfolding put
  get-put id j v at now ttl c =
      rw
        (
          get-fresh j ttl now (insert id (record { at = at; val = v }) c),
          get-fresh j ttl now c,
          find-insert id j (record { at = at; val = v }) c,
        )
        (ground arith)

  -- After `invalidate` with an id, `get` returns nothing to that id, and after one with an id that
  -- is not positive nothing to any; what it returns to other ids stays.
  pub get-invalidate :
      (id j : ℤ) (now : Time) (ttl : Duration) (c : TtlCache V)
      → (get j ttl now (invalidate id c)).1
        ≡ (if leb_ℤ id (pos 0) || eq_ℤ id j then none else (get j ttl now c).1)
  unfolding invalidate find
  get-invalidate id j now ttl c =
      rw (get-fresh j ttl now (invalidate id c), get-fresh j ttl now c)
        (ground (arith, find-delete id j c))

  expired_later :
      (ttl : Duration) (now later : Time) (it : TtlCacheItem V)
      → now ≤ℤ later
      → is_expired ttl now it ≡ true
      → is_expired ttl later it ≡ true
  expired_later ttl now later it h e = ground (arith, -ℤ_parts now it.at, -ℤ_parts later it.at)

  fresh-delete :
      (id j : ℤ) (later : Time) (ttl : Duration) (c : TtlCache V)
      → fresh ttl later (find id c) ≡ none
      → fresh ttl later (find j (delete id c)) ≡ fresh ttl later (find j c)
  fresh-delete id j later ttl c gone = elim (Bool-cases (eq_ℤ id j)) [
    | inl here ↦ rw (find-delete id j c, here, ← (eq_ℤ_iff id j).0 here, gone) refl
    | inr there ↦ rw (find-delete id j c, there) refl
  ]

  fresh-get :
      (id j : ℤ) (now later : Time) (ttl : Duration) (c : TtlCache V)
      → now ≤ℤ later
      → (o : Option (TtlCacheItem V)) → find id c ≡ o
      → fresh ttl later (find j (get id ttl now c).0) ≡ fresh ttl later (find j c)
  unfolding get
  fresh-get id j now later ttl c h none e = rw e refl
  fresh-get id j now later ttl c h (some it) e = elim (Bool-cases (is_expired ttl now it)) [
    | inr lives ↦ rw (e, lives) refl
    | inl over ↦
        rw (e, over)
          (fresh-delete id j later ttl c (rw (e, expired_later ttl now later it h over) refl))
  ]

  -- A `get` drops only what has expired: with the same time to live, no later `get` returns anything
  -- else because of it.
  pub get-get :
      (id j : ℤ) (now later : Time) (ttl : Duration) (c : TtlCache V)
      → now ≤ℤ later
      → (get j ttl later (get id ttl now c).0).1 ≡ (get j ttl later c).1
  get-get id j now later ttl c h =
      rw (get-fresh j ttl later (get id ttl now c).0, get-fresh j ttl later c)
        (fresh-get id j now later ttl c h (find id c) refl)

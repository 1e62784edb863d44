-- ===== src/Dedup/Stripping.antt =====
-- What is left of a query string.
use rssam.Common.{
  ℕ, ◌≡◌, ◌⊎◌, refl, Bool, true, false, List, [], ◌∷◌, any, keep_if, null, All, arith,
  if◌then◌else◌, ◌==◌, Bool-cases, inl, inr,
}
use rssam.Common.Text.{
  Text, Lacks, push_first, to_lower, has_prefix, split, split_of_Lacks, split-append,
}
use rssam.Dedup.{
  is_tracker, is_tracking_param, key_of, is_kept, join_segments, strip_tracking_params,
}

push_first-Lacks :
    (sep c : ℕ) (parts : List Text)
    → (c == sep) ≡ false
    → All (Lacks sep) parts
    → All (Lacks sep) (push_first c parts)
push_first-Lacks sep c [] other h = tt
push_first-Lacks sep c (part ∷ parts) other h = ((other, h.0), h.1)

split-Lacks : (sep : ℕ) (s : Text) → All (Lacks sep) (split sep s)
unfolding split
split-Lacks sep [] = (tt, tt)
split-Lacks sep (c ∷ s) = elim (Bool-cases (c == sep)) [
  | inl ends ↦ rw ends (tt, split-Lacks sep s)
  | inr other ↦ rw other (push_first-Lacks sep c (split sep s) other (split-Lacks sep s))
]

keep_if-Lacks :
    (test : Text → Bool) (segs : List Text)
    → All (Lacks b'&') segs
    → All (Lacks b'&') (keep_if test segs)
keep_if-Lacks test [] h = tt
keep_if-Lacks test (seg ∷ segs) h = elim (Bool-cases (test seg)) [
  | inl stays ↦ rw stays (h.0, keep_if-Lacks test segs h.1)
  | inr goes ↦ rw goes (keep_if-Lacks test segs h.1)
]

-- Splitting the joined segments gives them back.
split-join_segments :
    (seg : Text) (segs : List Text)
    → All (Lacks b'&') (seg ∷ segs)
    → split b'&' (join_segments (seg ∷ segs)) ≡ seg ∷ segs
unfolding join_segments
split-join_segments seg [] h = split_of_Lacks b'&' seg h.0
split-join_segments seg (next ∷ segs) h =
    rw (split-append b'&' seg (join_segments (next ∷ segs)) h.0, split-join_segments next segs h.1)

any-keep_if : (segs : List Text) → any is_tracker (keep_if is_kept segs) ≡ false
any-keep_if [] = refl
any-keep_if (seg ∷ segs) = ground (arith, any-keep_if segs)

-- The segments of the joined ones, where the empty text has one empty segment.
segments-join :
    (segs : List Text)
    → All (Lacks b'&') segs
    → split b'&' (join_segments segs) ≡ (if null segs then [] ∷ [] else segs)
unfolding join_segments split
segments-join [] h = refl
segments-join (seg ∷ segs) h = split-join_segments seg segs h

any-segments :
    (segs : List Text)
    → any is_tracker segs ≡ false
    → any is_tracker (if null segs then [] ∷ [] else segs) ≡ false
unfolding is_tracker is_tracking_param key_of to_lower has_prefix
any-segments [] h = refl
any-segments (seg ∷ segs) h = h

-- If something is removed, the segments of the new query are those of the old one that are not empty
-- and have no tracking key, in order and unchanged (the empty query has one empty segment); if
-- nothing is, the query is unchanged and none of its segments has a tracking key.
pub segments-strip_tracking_params :
    (query : Text)
    → (((strip_tracking_params query).1 ≡ true)
        × (split b'&' (strip_tracking_params query).0 ≡ (
            if null (keep_if is_kept (split b'&' query))
            then [] ∷ []
            else keep_if is_kept (split b'&' query))))
      ⊎ (((strip_tracking_params query).1 ≡ false)
          × ((strip_tracking_params query).0 ≡ query)
          × (any is_tracker (split b'&' query) ≡ false))
unfolding strip_tracking_params split
segments-strip_tracking_params [] = inr (refl, refl, any-segments [] refl)
segments-strip_tracking_params (c ∷ query) =
    elim (Bool-cases (any is_tracker (split b'&' (c ∷ query)))) [
      | inl some_tracker ↦ rw some_tracker (
          inl (
            refl,
            segments-join (keep_if is_kept (split b'&' (c ∷ query)))
                (keep_if-Lacks is_kept (split b'&' (c ∷ query)) (split-Lacks b'&' (c ∷ query))),
          ))
      | inr none_tracker ↦ rw none_tracker (inr (refl, refl, refl))
    ]

any-strip_tracking_params :
    (query : Text) → any is_tracker (split b'&' (strip_tracking_params query).0) ≡ false
any-strip_tracking_params query = elim (segments-strip_tracking_params query) [
  | inl stripped ↦
      rw stripped.1
        (any-segments (keep_if is_kept (split b'&' query)) (any-keep_if (split b'&' query)))
  | inr clean ↦ rw clean.1 clean.2
]

strip_tracking_params-clean :
    (query : Text)
    → any is_tracker (split b'&' query) ≡ false
    → strip_tracking_params query ≡ (query, false)
unfolding strip_tracking_params
strip_tracking_params-clean query clean = rw clean (ground arith)

-- Removing the tracking parameters a second time finds none.
pub strip_tracking_params_idempotent :
    (query : Text)
    → strip_tracking_params (strip_tracking_params query).0
      ≡ ((strip_tracking_params query).0, false)
strip_tracking_params_idempotent query =
    strip_tracking_params-clean (strip_tracking_params query).0 (any-strip_tracking_params query)

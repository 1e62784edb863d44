-- ===== src/Dedup/Tests.antt =====
-- Query strings, and the theorems applied to one.
use rssam.Common.{◌≡◌, ◌⊎◌, refl, true, false, [], ◌∷◌, any, keep_if, null, if◌then◌else◌}
use rssam.Common.Text.{Text, codes, split, to_lower, lower, has_prefix}
use rssam.Dedup.{
  is_tracking_param, key_of, is_tracker, join_segments, is_kept, strip_tracking_params,
}
use rssam.Dedup.Stripping.{segments-strip_tracking_params}

stripping : Unit {0}
unfolding strip_tracking_params join_segments is_tracker key_of is_tracking_param split to_lower
    lower has_prefix
stripping = tt

abbrev query : Text
query = codes "id=7&UTM_source=x&&b&fbclid"

strip_runs :
    (strip_tracking_params query ≡ (codes "id=7&b", true))
    × (strip_tracking_params (codes "a&&b") ≡ (codes "a&&b", false))
    × (strip_tracking_params (codes "yclid=1") ≡ ([], true))
    × (strip_tracking_params [] ≡ ([], false))
unfolding stripping
strip_runs = (refl, refl, refl, refl)

segments-strip_tracking_params_example :
    (((strip_tracking_params query).1 ≡ true)
      × (split b'&' (strip_tracking_params query).0 ≡ (
          if null (keep_if is_kept (split b'&' query))
          then [] ∷ []
          else keep_if is_kept (split b'&' query))))
    ⊎ (((strip_tracking_params query).1 ≡ false)
        × ((strip_tracking_params query).0 ≡ query)
        × (any is_tracker (split b'&' query) ≡ false))
segments-strip_tracking_params_example = segments-strip_tracking_params query

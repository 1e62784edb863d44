-- ===== src/Dedup.antt =====
-- internal/model/dedup.go: tracking parameters are removed from a query string. Parsing a URL and
-- hashing are calls of Go's libraries and left out, so NormalizeURL is not here.
pub mod Stripping
pub mod Tests
use rssam.Common.{
  ℕ, Bool, true, false, not, ◌||◌, ◌&&◌, List, [], ◌∷◌, ◌++◌, any, keep_if, null, if◌then◌else◌,
  ◌==◌,
}
use rssam.Common.Text.{Text, codes, text_eq, to_lower, has_prefix, split}

-- The keys of the map `trackingParams`, in the source's order.
abbrev pub tracking_params : List Text
tracking_params =
    codes "gclid"
    ∷ codes "dclid"
    ∷ codes "gbraid"
    ∷ codes "wbraid"
    ∷ codes "gclsrc"
    ∷ codes "srsltid"
    ∷ codes "_ga"
    ∷ codes "_gl"
    ∷ codes "yclid"
    ∷ codes "ysclid"
    ∷ codes "_openstat"
    ∷ codes "fbclid"
    ∷ codes "fb_action_ids"
    ∷ codes "fb_action_types"
    ∷ codes "fb_ref"
    ∷ codes "fb_source"
    ∷ codes "fb_comment_id"
    ∷ codes "igshid"
    ∷ codes "ttclid"
    ∷ codes "twclid"
    ∷ codes "ref_src"
    ∷ codes "ref_url"
    ∷ codes "li_fat_id"
    ∷ codes "msclkid"
    ∷ codes "mc_cid"
    ∷ codes "mc_eid"
    ∷ codes "mc_tc"
    ∷ codes "_hsenc"
    ∷ codes "_hsmi"
    ∷ codes "__hssc"
    ∷ codes "__hstc"
    ∷ codes "__hsfp"
    ∷ codes "hsctatracking"
    ∷ codes "hsa_cam"
    ∷ codes "mkt_tok"
    ∷ codes "sc_cid"
    ∷ codes "_bhlid"
    ∷ codes "vero_id"
    ∷ codes "vero_conv"
    ∷ codes "oly_anon_id"
    ∷ codes "oly_enc_id"
    ∷ codes "rb_clickid"
    ∷ codes "wickedid"
    ∷ codes "_branch_match_id"
    ∷ codes "_branch_referrer"
    ∷ []

abbrev pub tracking_prefixes : List Text
tracking_prefixes = codes "utm_" ∷ codes "mtm_" ∷ codes "pk_" ∷ codes "itm_" ∷ codes "hmb_" ∷ []

unfoldable pub is_tracking_param : Text → Bool
is_tracking_param raw_key =
    any (λ p. has_prefix (to_lower raw_key) p) tracking_prefixes
    || any (λ k. text_eq k (to_lower raw_key)) tracking_params

-- The part of a segment before its first '=', as `strings.Cut` gives it.
unfoldable pub key_of : Text → Text
key_of [] = []
key_of (c ∷ seg) = let rest = key_of seg in if c == b'=' then [] else c ∷ rest

unfoldable pub is_tracker : Text → Bool
is_tracker seg = is_tracking_param (key_of seg)

-- `strings.Join(segs, "&")`
unfoldable pub join_segments : List Text → Text
join_segments [] = []
join_segments (seg ∷ []) = seg
join_segments (seg ∷ next ∷ segs) = seg ++ b'&' ∷ join_segments (next ∷ segs)

-- The segments that the second loop keeps.
abbrev pub is_kept : Text → Bool
is_kept seg = not (null seg) && not (is_tracker seg)

unfoldable pub strip_tracking_params : Text → Text × Bool
strip_tracking_params raw_query =
    if null raw_query
    then (raw_query, false)
    else if any is_tracker (split b'&' raw_query)
    then (join_segments (keep_if is_kept (split b'&' raw_query)), true)
    else (raw_query, false)

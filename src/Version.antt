-- ===== src/Version.antt =====
-- internal/version/version.go: the order of version numbers, which decides whether a release is newer.
pub mod Order
pub mod Tests
use rssam.Common.{
  ℕ, ◌-◌, Bool, true, false, not, ◌&&◌, ◌||◌, Option, none, some, List, [], ◌∷◌, null, all, length,
  drop, leb, ltb, ◌==◌, if◌then◌else◌,
}
use mathlib.Core.List.{reverse}
use rssam.Common.Options.{◌>>=◌}
use rssam.Common.Int.{ℤ, pos, negsuc, ◌+ℤ◌, ◌*ℤ◌, wrap64, ltb_ℤ}
use rssam.Common.Text.{Text, codes, text_eq, trim_space, has_prefix, split, is_digit}

-- -1, 0 and 1.
abbrev pub less : ℤ
less = negsuc 0

abbrev pub equal : ℤ
equal = pos 0

abbrev pub greater : ℤ
greater = pos 1

-- `strings.Compare`
unfoldable pub text_compare : Text → Text → ℤ
text_compare [] [] = equal
text_compare [] (d ∷ t) = less
text_compare (c ∷ s) [] = greater
text_compare (c ∷ s) (d ∷ t) =
    let rest = text_compare s t in if ltb c d then less else if ltb d c then greater else rest

abbrev version_prefix : Text
version_prefix = codes "v"

unfoldable pub normalize : Text → Text
unfolding trim_space has_prefix
normalize v = let s = trim_space v in if has_prefix s version_prefix then drop 1 s else s

-- `strings.SplitN(s, sep, 2)[0]`
abbrev pub cut_at : ℕ → Text → Text
cut_at sep [] = []
cut_at sep (c ∷ s) = let rest = cut_at sep s in if c == sep then [] else c ∷ rest

abbrev pub after_dash : Text → Text
after_dash [] = []
after_dash (c ∷ s) = let rest = after_dash s in if c == b'-' then s else rest

unfoldable pub semver_suffix : Text → Text
semver_suffix s = after_dash (cut_at b'+' s)

-- `n*10 + int(c-'0')`
abbrev pub next_digit : ℤ → ℕ → ℤ
next_digit n c = wrap64 ((n *ℤ pos 10) +ℤ pos (c - b'0'))

abbrev decimal : ℤ → Text → Option ℤ
decimal n [] = some n
decimal n (c ∷ s) = if is_digit c then decimal (next_digit n c) s else none

abbrev part : Text → Option ℤ
part p = if null p then none else decimal (pos 0) p

abbrev numbers_of : List Text → Option (ℤ × ℤ × ℤ)
numbers_of [] = none
numbers_of (p ∷ []) = do a ← part p; some (a, pos 0, pos 0)
numbers_of (p ∷ q ∷ []) = do a ← part p; b ← part q; some (a, b, pos 0)
numbers_of (p ∷ q ∷ r ∷ []) = do a ← part p; b ← part q; c ← part r; some (a, b, c)
numbers_of (p ∷ q ∷ r ∷ s ∷ more) = none

unfoldable pub parse_semver : Text → Option (ℤ × ℤ × ℤ)
unfolding wrap64 ◌+ℤ◌ ◌*ℤ◌ split
parse_semver s = numbers_of (split b'.' (cut_at b'+' (cut_at b'-' s)))

abbrev is_hex : ℕ → Bool
is_hex c = is_digit c || (leb b'a' c && leb c b'f') || (leb b'A' c && leb c b'F')

abbrev dirty : Text
dirty = codes "-dirty"

abbrev trim_dirty : Text → Text
trim_dirty s = if has_prefix (reverse s) (reverse dirty) then reverse (drop 6 (reverse s)) else s

abbrev hash_after : ℤ → Text → Option ℤ
hash_after n [] = none
hash_after n (c ∷ s) =
    if c == b'g'
    then (if null (trim_dirty s) then none else if all is_hex (trim_dirty s) then some n else none)
    else none

abbrev dash_after : ℤ → Text → Option ℤ
dash_after n [] = none
dash_after n (c ∷ s) =
    let rest = dash_after (next_digit n c) s in
    if is_digit c then rest else if c == b'-' then hash_after n s else none

-- How many commits `git describe` counts after the tag, where the suffix is its own.
unfoldable pub git_describe_ahead : Text → Option ℤ
unfolding wrap64 ◌+ℤ◌ ◌*ℤ◌ has_prefix
git_describe_ahead [] = none
git_describe_ahead (c ∷ s) = if is_digit c then dash_after (pos 0) (c ∷ s) else none

abbrev pub by_number : ℤ → ℤ → ℤ
by_number a b = if ltb_ℤ a b then less else if ltb_ℤ b a then greater else equal

abbrev pub compare_rests : Text → Text → Option ℤ → Option ℤ → ℤ
compare_rests a b (some m) (some n) = by_number m n
compare_rests a b (some m) none = greater
compare_rests a b none (some n) = less
compare_rests a b none none = if null a then greater else if null b then less else text_compare a b

-- `compareSemverSuffix`; the cases of the `switch` that agree are joined.
unfoldable pub compare_semver_suffix : Text → Text → ℤ
compare_semver_suffix a b =
    if text_eq (semver_suffix a) (semver_suffix b)
    then equal
    else compare_rests (semver_suffix a) (semver_suffix b) (git_describe_ahead (semver_suffix a))
        (git_describe_ahead (semver_suffix b))

-- One round of the loop over the three numbers.
abbrev pub by_number_then : ℤ → ℤ → ℤ → ℤ
by_number_then a b rest = if ltb_ℤ a b then less else if ltb_ℤ b a then greater else rest

abbrev pub by_numbers : ℤ × ℤ × ℤ → ℤ × ℤ × ℤ → ℤ → ℤ
by_numbers (a, b, c) (d, e, f) rest =
    by_number_then a d (by_number_then b e (by_number_then c f rest))

abbrev pub compare_parsed : Text → Text → Option (ℤ × ℤ × ℤ) → Option (ℤ × ℤ × ℤ) → ℤ
compare_parsed a b none none = text_compare a b
compare_parsed a b none (some w) = less
compare_parsed a b (some v) none = greater
compare_parsed a b (some v) (some w) = by_numbers v w (compare_semver_suffix a b)

unfoldable pub compare_semver : Text → Text → ℤ
compare_semver a b =
    let a' = normalize a in
    let b' = normalize b in
    if text_eq a' b' then equal else compare_parsed a' b' (parse_semver a') (parse_semver b')

-- ===== src/Ws/Channels.antt =====
-- The channels that a client asks for: NormalizeChannels and validChannelID of internal/ws/hub.go.
use rssam.Common.{
  ℕ, ◌^◌, Bool, true, false, not, ◌&&◌, Option, none, some, List, [], ◌∷◌, null, any, all, length,
  drop, ltb, leb, ◌==◌, if◌then◌else◌,
}
use rssam.Common.Int.{ℤ, pos, sub_ℕ, ltb_ℤ}
use rssam.Common.Text.{
  Text, codes, text_eq, trim_space, to_lower, has_prefix, is_digit, digits_value,
}
use rssam.Ws.{has_channel}

-- `strconv.ParseInt(s, 10, 64)`; `none` is its error.
abbrev in_range : Bool → ℕ → Option ℤ
in_range negative n =
    if negative
    then (if leb n (2 ^ 63) then some (sub_ℕ 0 n) else none)
    else (if ltb n (2 ^ 63) then some (pos n) else none)

abbrev unsigned : Bool → Text → Option ℤ
unsigned negative s =
    if not (null s) && all is_digit s then in_range negative (digits_value 0 s) else none

unfoldable pub parse_int : Text → Option ℤ
parse_int [] = none
parse_int (c ∷ s) =
    if c == b'+'
    then unsigned false s
    else if c == b'-'
    then unsigned true s
    else unsigned false (c ∷ s)

abbrev pub is_positive : Option ℤ → Bool
is_positive none = false
is_positive (some id) = ltb_ℤ (pos 0) id

abbrev pub trim_prefix : Text → Text → Text
trim_prefix s prefix = if has_prefix s prefix then drop (length prefix) s else s

unfoldable pub valid_channel_id : Text → Text → Bool
unfolding parse_int has_prefix
valid_channel_id ch prefix = is_positive (parse_int (trim_prefix ch prefix))

abbrev feed_prefix : Text
feed_prefix = codes "feed:"

abbrev category_prefix : Text
category_prefix = codes "category:"

-- The tests of one round but the last.
unfoldable pub is_channel : Text → Bool
unfolding valid_channel_id has_prefix
is_channel ch =
    if null ch
    then false
    else if not (text_eq ch (codes "all"))
        && not (has_prefix ch feed_prefix)
        && not (has_prefix ch category_prefix)
    then false
    else if has_prefix ch feed_prefix && not (valid_channel_id ch feed_prefix)
    then false
    else if has_prefix ch category_prefix && not (valid_channel_id ch category_prefix)
    then false
    else true

abbrev pub name_of : Text → Text
name_of ch = to_lower (trim_space ch)

unfoldable pub normalize_loop : List Text → List Text → List Text
normalize_loop seen [] = []
normalize_loop seen (ch ∷ chs) =
    let name = name_of ch in
    let repeats = normalize_loop seen chs in
    let rest = normalize_loop (name ∷ seen) chs in
    if not (is_channel name)
    then repeats
    else if has_channel name seen
    then repeats
    else name ∷ rest

unfoldable pub normalize_channels : List Text → List Text
normalize_channels chs = normalize_loop [] chs

abbrev pub one_if : Bool → ℕ
one_if true = 1
one_if false = 0

abbrev pub asked : Text → List Text → Bool
asked ch chs = any (λ c. text_eq (name_of c) ch) chs

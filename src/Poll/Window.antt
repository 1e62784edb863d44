-- ===== src/Poll/Window.antt =====
-- internal/storage/poll_window.go: the daily hours in which the feeds of a category are polled.
-- The local zone is a parameter. `Sscanf` with "%d:%d" is modelled as documented: each
-- number may follow spaces and a sign, and what comes after the second number is not read.
pub mod Opening
pub mod Parsing
use mathlib.Core.List.{reverse}
use rssam.Common.{
  ℕ, zero, suc, ◌+◌, ◌-◌, ◌*◌, ◌/◌, ◌%◌, Bool, true, false, ◌&&◌, ◌||◌, Option, none, some, List,
  [], ◌∷◌, ◌++◌, if◌then◌else◌, ltb, leb, ◌==◌, null,
}
use rssam.Common.Int.{ℤ, pos, negsuc, pos_part, sub_ℕ, ◌+ℤ◌, ltb_ℤ}
use rssam.Common.Options.{◌>>=◌}
use rssam.Common.Text.{Text, codes, trim_space, split}
use rssam.Poll.Schedule.{Time, minute, hour}

pub record PollWindow : Type 0 where
  pub start : ℕ
  pub end : ℕ

-- The results of `ParsePollHours`: no window, a window, or `ErrInvalidPollHours`.
pub data PollHours : Type 0 where
  unrestricted : PollHours
  window : PollWindow → PollHours
  invalid_poll_hours : PollHours

abbrev is_digit : ℕ → Bool
is_digit c = leb b'0' c && leb c b'9'

-- The digits at the head of a text, as a number, and the rest of the text.
unfoldable pub scan_digits : ℕ → Text → ℕ × Text
scan_digits n [] = (n, [])
scan_digits n (c ∷ s) =
    let more = scan_digits (n * 10 + (c - b'0')) s in if is_digit c then more else (n, c ∷ s)

-- Spaces other than a line feed, which ends the scan.
abbrev is_blank : ℕ → Bool
is_blank c = leb 9 c && leb c 13 && (if c == 10 then false else true) || c == 32

unfoldable pub skip_blanks : Text → Text
skip_blanks [] = []
skip_blanks (c ∷ s) = let rest = skip_blanks s in if is_blank c then rest else c ∷ s

unfoldable pub scan_unsigned : Text → Option (ℕ × Text)
unfolding scan_digits
scan_unsigned [] = none
scan_unsigned (c ∷ s) = if is_digit c then some (scan_digits 0 (c ∷ s)) else none

abbrev signed_by : Bool → Option (ℕ × Text) → Option (ℤ × Text)
signed_by minus none = none
signed_by minus (some (n, rest)) = some (if minus then sub_ℕ 0 n else pos n, rest)

unfoldable pub scan_int : Text → Option (ℤ × Text)
unfolding scan_unsigned
scan_int [] = none
scan_int (c ∷ s) =
    if c == b'-'
    then signed_by true (scan_unsigned s)
    else if c == b'+'
    then signed_by false (scan_unsigned s)
    else signed_by false (scan_unsigned (c ∷ s))

abbrev after_colon : Text → Option Text
after_colon [] = none
after_colon (c ∷ s) = if c == b':' then some s else none

abbrev in_range : ℤ → ℕ → Option ℕ
in_range (pos n) top = if leb n top then some n else none
in_range (negsuc n) top = none

abbrev minute_total : ℤ → ℤ → Option ℕ
minute_total h m = do hours ← in_range h 23; minutes ← in_range m 59; some (hours * 60 + minutes)

-- The second number of "%d:%d", and the range test.
abbrev with_minutes : ℤ → Option (ℤ × Text) → Option ℕ
with_minutes h none = none
with_minutes h (some (m, _)) = minute_total h m

abbrev with_hours : Option (ℤ × Text) → Option ℕ
with_hours none = none
with_hours (some (h, rest)) = do s ← after_colon rest; with_minutes h (scan_int (skip_blanks s))

unfoldable pub parse_minute_of_day : Text → Option ℕ
unfolding scan_int skip_blanks trim_space
parse_minute_of_day s = with_hours (scan_int (skip_blanks (trim_space s)))

abbrev window_of : Option ℕ → Option ℕ → PollHours
window_of (some start) (some end) =
    if start == end then invalid_poll_hours else window (record { start = start; end = end })
window_of (some start) none = invalid_poll_hours
window_of none end = invalid_poll_hours

abbrev parse_parts : List Text → PollHours
parse_parts (from ∷ to ∷ []) = window_of (parse_minute_of_day from) (parse_minute_of_day to)
parse_parts _ = invalid_poll_hours

unfoldable pub parse_poll_hours : Text → PollHours
parse_poll_hours s =
    let hours = trim_space s in if null hours then unrestricted else parse_parts (split b'-' hours)

abbrev two_digits : ℕ → Text
two_digits n = (b'0' + n / 10) ∷ (b'0' + n % 10) ∷ []

-- `%02d:%02d` of a minute of the day.
unfoldable pub print_minute : ℕ → Text
print_minute m = two_digits (m / 60) ++ b':' ∷ two_digits (m % 60)

unfoldable pub print_window : PollWindow → Text
print_window w = print_minute w.start ++ b'-' ∷ print_minute w.end

-- `none` is `ErrInvalidPollHours`.
abbrev normalized : PollHours → Option Text
normalized unrestricted = some []
normalized (window w) = some (print_window w)
normalized invalid_poll_hours = none

unfoldable pub normalize_poll_hours : Text → Option Text
normalize_poll_hours s = normalized (parse_poll_hours s)

abbrev pub day : ℕ
day = 24 * hour

-- The test of `Contains` on a minute of the day.
abbrev pub in_window : PollWindow → ℕ → Bool
in_window w m =
    if ltb w.start w.end then leb w.start m && ltb m w.end else leb w.start m || ltb m w.end

-- What the code uses of the local zone: `offset` is what the local clock of an instant is ahead of
-- UTC (`t.Local()`), which may change from instant to instant, and `date` is the instant of a local day
-- and the nanoseconds of the clock on that day (`time.Date`, and `AddDate` on the fields of a time).
pub record Zone : Type 0 where
  pub offset : Time → ℤ
  pub date : ℕ → ℕ → Time

module _ (zone : Zone) where
  -- The reading of the local calendar and clock in nanoseconds, `day` of them to each day of the
  -- calendar; the instants of the program are after its beginning.
  abbrev pub local : Time → ℕ
  local t = pos_part (t +ℤ zone.offset t)

  unfoldable pub minute_of_day : Time → ℕ
  minute_of_day t = local t / minute % 1440

  unfoldable pub contains : PollWindow → Time → Bool
  unfolding minute_of_day
  contains w t = in_window w (minute_of_day t)

  -- The opening on the local day of `t`.
  abbrev pub opening : PollWindow → Time → Time
  opening w t = zone.date (local t / day) (w.start * minute)

  -- `open.AddDate(0, 0, 1)`
  abbrev pub next_day : Time → Time
  next_day t = zone.date (local t / day + 1) (local t % day)

  unfoldable pub next_open : PollWindow → Time → Time
  next_open w t =
      let opens = opening w t in
      if contains w t then t else if ltb_ℤ t opens then opens else next_day opens

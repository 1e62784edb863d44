-- ===== src/Poll/Window/Parsing.antt =====
-- A poll window that is printed is read back.
use rssam.Common.{
  ℕ, ◌<◌, ◌≡◌, ◌≢◌, refl, Bool, true, false, Option, none, some, List, [], ◌∷◌, arith, ◌==◌, ==_iff,
  Bool-cases, null, inl, inr,
}
use rssam.Common.Int.{ℤ, pos, negsuc}
use rssam.Common.Options.{>>=-eq-some}
use rssam.Common.Tests.{holds_below, holds_below_lem}
use rssam.Common.Text.{
  Text, Lacks, split, split-append, split_of_Lacks, trim_space, trim_space_of_ends,
}
use rssam.Poll.Window.{
  PollWindow, PollHours, window, unrestricted, invalid_poll_hours, parse_minute_of_day,
  parse_poll_hours, scan_int, skip_blanks, after_colon, minute_total, with_minutes, with_hours,
  window_of, parse_parts, normalized, print_minute, print_window, normalize_poll_hours,
}
use rssam.Poll.Window.Opening.{IsValid}

abbrev reads_as : Option ℕ → ℕ → Bool
reads_as none m = false
reads_as (some n) m = n == m

minute_table : holds_below (λ m. reads_as (parse_minute_of_day (print_minute m)) m) 1440 ≡ true
unfolding holds_below parse_minute_of_day print_minute
minute_table = refl

reads_as-eq-some : (o : Option ℕ) (m : ℕ) → reads_as o m ≡ true → o ≡ some m
reads_as-eq-some o m h = ground arith

parse-print_minute : (m : ℕ) → m < 1440 → parse_minute_of_day (print_minute m) ≡ some m
parse-print_minute m h = reads_as-eq-some _ m (holds_below_lem _ 1440 minute_table m h)

print_minute-Lacks : (m : ℕ) → Lacks b'-' (print_minute m)
unfolding print_minute
print_minute-Lacks m = ground arith

trim-print_window : (w : PollWindow) → trim_space (print_window w) ≡ print_window w
unfolding print_window print_minute
trim-print_window w = trim_space_of_ends _ _ _ _ (ground arith) refl (ground arith)

-- A window of two different minutes of the day is printed as a text that parses to it.
pub parse-print_window :
    (w : PollWindow) → IsValid w → w.start ≢ w.end → parse_poll_hours (print_window w) ≡ window w
unfolding parse_poll_hours
parse-print_window w v h = rw (trim-print_window w) (
    unfold print_window print_minute in
    rw
      (
        split-append b'-' (print_minute w.start) (print_minute w.end) (print_minute-Lacks w.start),
        split_of_Lacks b'-' (print_minute w.end) (print_minute-Lacks w.end),
        parse-print_minute w.start v.start_in_day,
        parse-print_minute w.end v.end_in_day,
      )
      (ground (arith, ==_iff w.start w.end)))

minute_total-lt : (h m : ℤ) (n : ℕ) → minute_total h m ≡ some n → n < 1440
minute_total-lt (pos h) (pos m) n e = ground arith
minute_total-lt (pos h) (negsuc m) n e = ground arith
minute_total-lt (negsuc h) m n e = cc

with_minutes-lt : (h : ℤ) (o : Option (ℤ × Text)) (n : ℕ) → with_minutes h o ≡ some n → n < 1440
with_minutes-lt h none n e = cc
with_minutes-lt h (some (m, _)) n e = minute_total-lt h m n e

with_hours-lt : (o : Option (ℤ × Text)) (n : ℕ) → with_hours o ≡ some n → n < 1440
with_hours-lt none n e = cc
with_hours-lt (some (h, rest)) n e =
    let (s, _, read) =
      >>=-eq-some (after_colon rest) (λ s. with_minutes h (scan_int (skip_blanks s))) e in
    with_minutes-lt h (scan_int (skip_blanks s)) n read

parse_minute_of_day-lt : (s : Text) (m : ℕ) → parse_minute_of_day s ≡ some m → m < 1440
unfolding parse_minute_of_day
parse_minute_of_day-lt s m h = with_hours-lt (scan_int (skip_blanks (trim_space s))) m h

window_of-eq-window :
    (a b : Option ℕ) (w : PollWindow)
    → window_of a b ≡ window w
    → (a ≡ some w.start) × (b ≡ some w.end) × (w.start ≢ w.end)
window_of-eq-window none b w h = cc
window_of-eq-window (some m) none w h = cc
window_of-eq-window (some m) (some n) w h = ground (arith, ==_iff m n)

parse_parts-IsValid :
    (parts : List Text) (w : PollWindow)
    → parse_parts parts ≡ window w
    → IsValid w × (w.start ≢ w.end)
parse_parts-IsValid [] w h = cc
parse_parts-IsValid (a ∷ []) w h = cc
parse_parts-IsValid (a ∷ b ∷ c ∷ more) w h = cc
parse_parts-IsValid (a ∷ b ∷ []) w h =
    let (from, to, differ) =
      window_of-eq-window (parse_minute_of_day a) (parse_minute_of_day b) w h in
    (
      record {
        start_in_day = parse_minute_of_day-lt a w.start from;
        end_in_day = parse_minute_of_day-lt b w.end to;
      },
      differ,
    )

-- What is parsed to a window has two different minutes of the day.
pub parse_poll_hours-IsValid :
    (s : Text) (w : PollWindow) → parse_poll_hours s ≡ window w → IsValid w × (w.start ≢ w.end)
unfolding parse_poll_hours
parse_poll_hours-IsValid s w h = elim (Bool-cases (null (trim_space s))) [
  | inl empty ↦ cc (rw empty at h)
  | inr given ↦ parse_parts-IsValid (split b'-' (trim_space s)) w (rw given at h)
]

parse_empty : parse_poll_hours [] ≡ unrestricted
unfolding parse_poll_hours trim_space
parse_empty = refl

-- Normalising poll hours a second time changes nothing.
pub normalize_poll_hours_idempotent :
    (s t : Text) → normalize_poll_hours s ≡ some t → normalize_poll_hours t ≡ some t
unfolding normalize_poll_hours
normalize_poll_hours_idempotent s t h = from_result (parse_poll_hours s) refl h
  where
    from_result :
        (r : PollHours)
        → parse_poll_hours s ≡ r
        → normalized r ≡ some t
        → normalized (parse_poll_hours t) ≡ some t
    from_result unrestricted e k = let same : [] ≡ t = cc in rw (← same, parse_empty)
    from_result (window w) e k =
        let (v, differ) = parse_poll_hours-IsValid s w e in
        let same : print_window w ≡ t = cc in rw (← same, parse-print_window w v differ)
    from_result invalid_poll_hours e k = cc

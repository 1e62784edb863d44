-- ===== src/Limiter.antt =====
-- evictOldestLocked of internal/http/middleware/ratelimit.go: which buckets the limiter forgets when
-- it holds too many.
pub mod Oldest
pub mod Tests
use rssam.Common.{ℕ, zero, suc, ◌+◌, Bool, List, [], ◌∷◌, ◌++◌, length, ltb, leb, if◌then◌else◌}
use rssam.Common.Int.{ℤ, pos, pos_part, ltb_ℤ, leb_ℤ}
use rssam.Common.Text.{Text}
use rssam.Common.Maps.{text_key, delete}
use rssam.Poll.Schedule.{Time}

-- `kv`
pub record AgedKey : Type 0 where
  pub key : Text
  pub last : Time

-- The loop over `i` from 1 on: the index of the first newest one. `best` is `oldest[imax].last`.
unfoldable pub newest_from : ℕ → Time → ℕ → List AgedKey → ℕ
newest_from imax best i [] = imax
newest_from imax best i (x ∷ xs) =
    let newer = newest_from i x.last (suc i) xs in
    let same = newest_from imax best (suc i) xs in if ltb_ℤ best x.last then newer else same

abbrev pub index_of_newest : List AgedKey → ℕ
index_of_newest [] = 0
index_of_newest (x ∷ xs) = newest_from 0 x.last 1 xs

-- `if b.last.Before(oldest[imax].last) { oldest[imax] = b }`
abbrev pub replace_at : ℕ → AgedKey → List AgedKey → List AgedKey
replace_at i b [] = []
replace_at zero b (x ∷ xs) = if ltb_ℤ b.last x.last then b ∷ xs else x ∷ xs
replace_at (suc i) b (x ∷ xs) = x ∷ replace_at i b xs

-- The loop over the buckets, in the order in which the map gives them.
unfoldable pub oldest_of : ℕ → List AgedKey → List AgedKey → List AgedKey
oldest_of n oldest [] = oldest
oldest_of n oldest (b ∷ buckets) =
    oldest_of n
      (if ltb (length oldest) n
        then oldest ++ b ∷ []
        else replace_at (index_of_newest oldest) b oldest)
      buckets

abbrev pub without : {V : Type 0} → List AgedKey → List (Text × V) → List (Text × V)
without [] m = m
without (item ∷ items) m = without items (delete item.key m)

abbrev pub aged : {V : Type 0} → (V → Time) → List (Text × V) → List AgedKey
aged last_of [] = []
aged last_of ((key, b) ∷ m) = record { key = key; last = last_of b } ∷ aged last_of m

-- `evictOldestLocked` on a map to values with a time.
unfoldable pub evict_oldest : {V : Type 0} → (V → Time) → ℤ → List (Text × V) → List (Text × V)
evict_oldest last_of n m =
    if leb_ℤ n (pos 0) then m else without (oldest_of (pos_part n) [] (aged last_of m)) m

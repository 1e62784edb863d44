-- ===== src/Limiter/Tests.antt =====
-- An eviction, and the theorem applied to one.
use rssam.Common.{ℕ, ◌+◌, ◌<◌, ◌≡◌, ◌⊎◌, refl, List, [], ◌∷◌, length, arith}
use rssam.Common.Int.{ℤ, pos}
use rssam.Common.Text.{Text, codes}
use rssam.Common.Maps.{text_key, delete}
use rssam.Common.Lists.{total}
use rssam.Limiter.{AgedKey, newest_from, oldest_of, evict_oldest}
use rssam.Limiter.Oldest.{Apart, oldest_of-Apart}

abbrev aged_at : Text → ℕ → AgedKey
aged_at key at = record { key = key; last = pos at }

abbrev buckets : List AgedKey
buckets =
    aged_at (codes "a") 5
    ∷ aged_at (codes "b") 2
    ∷ aged_at (codes "c") 9
    ∷ aged_at (codes "d") 1
    ∷ []

abbrev times_by_key : List (Text × ℤ)
times_by_key =
    (codes "a", pos 5) ∷ (codes "b", pos 2) ∷ (codes "c", pos 9) ∷ (codes "d", pos 1) ∷ []

evictions_run :
    (oldest_of 2 [] buckets ≡ aged_at (codes "d") 1 ∷ aged_at (codes "b") 2 ∷ [])
    × (evict_oldest (λ (at : ℤ). at) (pos 2) times_by_key
        ≡ ((codes "a", pos 5) ∷ (codes "c", pos 9) ∷ []))
unfolding oldest_of newest_from evict_oldest delete
evictions_run = (refl, refl)

oldest_of-Apart_example :
    (left : List AgedKey) × ((f : AgedKey → ℕ)
      → total f buckets ≡ total f (oldest_of 2 [] buckets) + total f left)
    × Apart (oldest_of 2 [] buckets) left
    × ((length (oldest_of 2 [] buckets) ≡ 2) ⊎ (length (oldest_of 2 [] buckets) < 2) × (left ≡ []))
oldest_of-Apart_example = oldest_of-Apart 2 buckets (omega arith)

-- ===== src/Limiter/Oldest.antt =====
-- The buckets that are chosen are the oldest.
use rssam.Common.{
  ℕ, zero, suc, ◌+◌, ◌<◌, ◌≡◌, refl, sym, ap, ◌∙◌, false, some, List, [], ◌∷◌, ◌++◌, length,
  length-append, get_elem?, ltb, if◌then◌else◌, All, All-append, lt→ltb, ◌⊎◌, Bool-cases, inl, inr,
  arith,
}
use mathlib.Core.List.{append-nil, append_assoc}
use rssam.Common.Int.{ltb_ℤ, ◌≤ℤ◌}
use rssam.Poll.Schedule.{Time}
use rssam.Common.Lists.{total, total-append}
use rssam.Limiter.{AgedKey, newest_from, index_of_newest, replace_at, oldest_of}

-- All of the list are at most as new as `t`, or at least.
abbrev pub Before : Time → AgedKey → Type 0
Before t x = x.last ≤ℤ t

abbrev pub After : Time → AgedKey → Type 0
After t x = t ≤ℤ x.last

All-weaken :
    {P Q : AgedKey → Type 0} (xs : List AgedKey) → ((x : AgedKey) → P x → Q x) → All P xs → All Q xs
All-weaken [] f h = tt
All-weaken (x ∷ xs) f h = (f x h.0, All-weaken xs f h.1)

-- An index of one that no other is newer than.
abbrev Found : List AgedKey → ℕ → Type 0
Found items j = (top : AgedKey) × (get_elem? items j ≡ some top) × All (Before top.last) items

get_elem?-append :
    (xs ys : List AgedKey) (x : AgedKey) → get_elem? (xs ++ x ∷ ys) (length xs) ≡ some x
get_elem?-append [] ys x = refl
get_elem?-append (y ∷ xs) ys x = get_elem?-append xs ys x

newest_from-Found :
    (items searched xs : List AgedKey) (m : AgedKey) (imax i : ℕ)
    → items ≡ searched ++ xs
    → get_elem? items imax ≡ some m
    → i ≡ length searched
    → All (Before m.last) searched
    → Found items (newest_from imax m.last i xs)
unfolding newest_from
newest_from-Found items searched [] m imax i e at_m f h = (m, at_m, rw (e ∙ append-nil searched) h)
newest_from-Found items searched (x ∷ xs) m imax i e at_m f h =
    let longer : items ≡ (searched ++ x ∷ []) ++ xs = e ∙ sym (append_assoc searched (x ∷ []) xs) in
    let next : suc i ≡ length (searched ++ x ∷ []) =
      omega (arith, f, length-append searched (x ∷ [])) in
    elim (Bool-cases (ltb_ℤ m.last x.last)) [
      | inl newer ↦ rw newer (
          newest_from-Found items (searched ++ x ∷ []) xs x i (suc i) longer
            (rw (e, f) (get_elem?-append searched xs x)) next
            (All-append _ searched (x ∷ []) (All-weaken searched (λ y p. ground (arith, p)) h)
              (ground arith, tt)))
      | inr older ↦ rw older (
          newest_from-Found items (searched ++ x ∷ []) xs m imax (suc i) longer at_m next
            (All-append _ searched (x ∷ []) h (ground arith, tt)))
    ]

index_of_newest-Found :
    (items : List AgedKey) → 0 < length items → Found items (index_of_newest items)
index_of_newest-Found [] h = absurd (omega arith)
index_of_newest-Found (x ∷ xs) h =
    newest_from-Found (x ∷ xs) (x ∷ []) xs x 0 1 refl refl refl (omega arith, tt)

-- What a replacement leaves out.
abbrev left_out : AgedKey → AgedKey → AgedKey
left_out b top = if ltb_ℤ b.last top.last then top else b

total-replace_at :
    (f : AgedKey → ℕ) (b top : AgedKey) (xs : List AgedKey) (j : ℕ)
    → get_elem? xs j ≡ some top
    → total f (replace_at j b xs) + f (left_out b top) ≡ total f xs + f b
total-replace_at f b top [] j h = cc
total-replace_at f b top (x ∷ xs) zero h = ground arith
total-replace_at f b top (x ∷ xs) (suc j) h = omega (arith, total-replace_at f b top xs j h)

length-replace_at :
    (b : AgedKey) (xs : List AgedKey) (j : ℕ) → length (replace_at j b xs) ≡ length xs
length-replace_at b [] j = refl
length-replace_at b (x ∷ xs) zero = ground arith
length-replace_at b (x ∷ xs) (suc j) = ap suc (length-replace_at b xs j)

replace_at-Before :
    (t : Time) (b : AgedKey) (xs : List AgedKey) (j : ℕ)
    → All (Before t) xs
    → All (Before t) (replace_at j b xs)
replace_at-Before t b [] j h = tt
replace_at-Before t b (x ∷ xs) zero h = elim (Bool-cases (ltb_ℤ b.last x.last)) [
  | inl older ↦ rw older (ground (arith, h.0), h.1)
  | inr newer ↦ rw newer h
]
replace_at-Before t b (x ∷ xs) (suc j) h = (h.0, replace_at-Before t b xs j h.1)

left_out-Before :
    (b top : AgedKey) (xs : List AgedKey)
    → All (Before top.last) xs
    → All (Before (left_out b top).last) xs
left_out-Before b top xs h = All-weaken xs (λ x p. ground (arith, p)) h

-- No one that is left out is older than one that is chosen.
abbrev pub Apart : List AgedKey → List AgedKey → Type 0
Apart chosen left = All (λ y. All (Before y.last) chosen) left

Apart-replace_at :
    (b : AgedKey) (chosen left : List AgedKey) (j : ℕ)
    → Apart chosen left
    → Apart (replace_at j b chosen) left
Apart-replace_at b chosen [] j h = tt
Apart-replace_at b chosen (y ∷ left) j h =
    (replace_at-Before y.last b chosen j h.0, Apart-replace_at b chosen left j h.1)

-- The chosen and the left out, at the end of the loop.
abbrev Divided : ℕ → List AgedKey → List AgedKey → Type 0
Divided n items chosen =
    (left : List AgedKey) × ((f : AgedKey → ℕ) → total f items ≡ total f chosen + total f left)
    × Apart chosen left
    × ((length chosen ≡ n) ⊎ (length chosen < n) × (left ≡ []))

oldest_of-Divided :
    (n : ℕ) (items chosen left buckets : List AgedKey)
    → 0 < n
    → ((f : AgedKey → ℕ) → total f items ≡ total f chosen + total f left + total f buckets)
    → Apart chosen left
    → (length chosen ≡ n) ⊎ (length chosen < n) × (left ≡ [])
    → Divided n items (oldest_of n chosen buckets)
unfolding oldest_of
oldest_of-Divided n items chosen left [] pos_n sums apart size =
    (left, λ f. omega (arith, sums f), apart, size)
oldest_of-Divided n items chosen left (b ∷ buckets) pos_n sums apart (inr (few, none_left)) =
    rw (lt→ltb (length chosen) n few) (
      oldest_of-Divided n items (chosen ++ b ∷ []) [] buckets pos_n
        (λ f. omega (arith, sums f, ap (total f) none_left, total-append f chosen (b ∷ []))) tt
        (elim (Bool-cases (ltb (length chosen + 1) n)) [
          | inl more ↦ inr (ground (arith, length-append chosen (b ∷ [])), refl)
          | inr full ↦ inl (ground (arith, length-append chosen (b ∷ [])))
        ]))
oldest_of-Divided n items chosen left (b ∷ buckets) pos_n sums apart (inl full) =
    let (top, at_top, newest) = index_of_newest-Found chosen (omega arith) in
    let j = index_of_newest chosen in
    let not_more : ltb (length chosen) n ≡ false = ground arith in
    rw not_more (
      oldest_of-Divided n items (replace_at j b chosen) (left_out b top ∷ left) buckets pos_n
        (λ f. omega (arith, sums f, total-replace_at f b top chosen j at_top))
        (
          left_out-Before b top (replace_at j b chosen)
              (replace_at-Before top.last b chosen j newest),
          Apart-replace_at b chosen left j apart,
        )
        (inl (omega (arith, length-replace_at b chosen j, full))))

-- Where at least one bucket is to go: the chosen ones and some others make up the buckets, none of the
-- others is older than a chosen one, and the chosen are as many as asked for, or fewer and all of them.
pub oldest_of-Apart :
    (n : ℕ) (buckets : List AgedKey)
    → 0 < n
    → (left : List AgedKey) × ((f : AgedKey → ℕ)
        → total f buckets ≡ total f (oldest_of n [] buckets) + total f left)
      × Apart (oldest_of n [] buckets) left
      × ((length (oldest_of n [] buckets) ≡ n)
          ⊎ (length (oldest_of n [] buckets) < n) × (left ≡ []))
oldest_of-Apart n buckets h =
    oldest_of-Divided n buckets [] [] buckets h (λ f. omega arith) tt (inr (h, refl))

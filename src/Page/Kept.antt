-- ===== src/Page/Kept.antt =====
-- The walk through the table ends, and what it keeps is a longest common subsequence.
use Prim.Native.Nat.{max}
use rssam.Common.{
  sym, ℕ, zero, suc, ◌+◌, ◌≤◌, ◌<◌, ◌≡◌, refl, ap, ◌∙◌, true, false, ◌||◌, Option, none, some, List,
  [], ◌∷◌, length, get_elem?, take, drop, null, leb, if◌then◌else◌, Bool-cases, Option-cases, inl,
  inr, arith,
}
use rssam.Common.Text.{Text, text_eq, text_eq_iff}
use rssam.Page.{fill_table, cell_at, walk_table, with_pair, lcs_keep, max_n}
use rssam.Page.Reference.{best, best-nil, best-le-cons, best-le-cons_right, cell_at-fill_table}

-- Two indices that name one line.
abbrev pub Agree : List Text → List Text → ℕ × ℕ → Type 0
Agree a b (p, q) = (x : Text) × (get_elem? a p ≡ some x) × (get_elem? b q ≡ some x)

-- A common subsequence from `i` and `j` on: pairs of indices that both grow.
abbrev pub IsCommon : List Text → List Text → ℕ → ℕ → List (ℕ × ℕ) → Type 0
IsCommon a b i j [] = Unit
IsCommon a b i j ((p, q) ∷ ks) =
    (i ≤ p) × (j ≤ q) × Agree a b (p, q) × IsCommon a b (suc p) (suc q) ks

module _ {ℓ} {A : Type ℓ} where
  pub drop-get_elem? :
      (xs : List A) (i : ℕ) (x : A) → get_elem? xs i ≡ some x → drop i xs ≡ x ∷ drop (suc i) xs
  drop-get_elem? [] i x h = cc
  drop-get_elem? (y ∷ xs) zero x h = cc
  drop-get_elem? (y ∷ xs) (suc i) x h = drop-get_elem? xs i x h

  drop_past : (xs : List A) (i : ℕ) → get_elem? xs i ≡ none → drop i xs ≡ []
  drop_past [] zero h = refl
  drop_past [] (suc i) h = refl
  drop_past (y ∷ xs) zero h = cc
  drop_past (y ∷ xs) (suc i) h = drop_past xs i h

-- A later start leaves fewer lines in common.
best-drop-le : (a b : List Text) (i p : ℕ) → i ≤ p → best (drop p a) b ≤ best (drop i a) b
unfolding best
best-drop-le a b zero zero h = omega arith
best-drop-le [] b zero (suc p) h = omega arith
best-drop-le (x ∷ a) b zero (suc p) h =
    omega (arith, best-drop-le a b zero p (omega arith), best-le-cons a b x)
best-drop-le a b (suc i) zero h = absurd (omega arith)
best-drop-le [] b (suc i) (suc p) h = omega arith
best-drop-le (x ∷ a) b (suc i) (suc p) h = best-drop-le a b i p (omega arith)

best-drop-le_right : (a b : List Text) (j q : ℕ) → j ≤ q → best a (drop q b) ≤ best a (drop j b)
best-drop-le_right a b zero zero h = omega arith
best-drop-le_right a [] zero (suc q) h = omega arith
best-drop-le_right a (y ∷ b) zero (suc q) h =
    omega (arith, best-drop-le_right a b zero q (omega arith), best-le-cons_right a b y)
best-drop-le_right a b (suc j) zero h = absurd (omega arith)
best-drop-le_right a [] (suc j) (suc q) h = omega arith
best-drop-le_right a (y ∷ b) (suc j) (suc q) h = best-drop-le_right a b j q (omega arith)

best-Agree :
    (a b : List Text) (p q : ℕ)
    → Agree a b (p, q)
    → best (drop p a) (drop q b) ≡ suc (best (drop (suc p) a) (drop (suc q) b))
unfolding best
best-Agree a b p q (x, at_p, at_q) =
    rw (drop-get_elem? a p x at_p, drop-get_elem? b q x at_q, (text_eq_iff x x).1 refl) refl

-- No common subsequence is longer than the reference.
length-IsCommon :
    (a b : List Text) (i j : ℕ) (ks : List (ℕ × ℕ))
    → IsCommon a b i j ks
    → length ks ≤ best (drop i a) (drop j b)
length-IsCommon a b i j [] h = omega arith
length-IsCommon a b i j ((p, q) ∷ ks) h = omega (
  arith,
  length-IsCommon a b (suc p) (suc q) ks h.3,
  best-Agree a b p q h.2,
  best-drop-le a (drop q b) i p h.0,
  best-drop-le_right (drop i a) b j q h.1,
)

IsCommon-later :
    (a b : List Text) (i j i' j' : ℕ) (ks : List (ℕ × ℕ))
    → i ≤ i'
    → j ≤ j'
    → IsCommon a b i' j' ks
    → IsCommon a b i j ks
IsCommon-later a b i j i' j' [] hi hj h = tt
IsCommon-later a b i j i' j' ((p, q) ∷ ks) hi hj h = (omega arith, omega arith, h.2, h.3)

-- What the walk promises from `i` and `j` on: it ends, and keeps as much as the reference.
abbrev Walked : List Text → List Text → ℕ → ℕ → Option (List (ℕ × ℕ)) → Type 0
Walked a b i j r =
    (ks : List (ℕ × ℕ)) × (r ≡ some ks)
    × IsCommon a b i j ks
    × (length ks ≡ best (drop i a) (drop j b))

Walked-with_pair :
    (a b : List Text) (i j : ℕ) (r : Option (List (ℕ × ℕ)))
    → Agree a b (i, j)
    → Walked a b (suc i) (suc j) r
    → Walked a b i j (with_pair (i, j) r)
Walked-with_pair a b i j r agree (ks, e, common, long) = (
  (i, j) ∷ ks,
  rw e refl,
  (omega arith, omega arith, agree, common),
  omega (arith, long, best-Agree a b i j agree),
)

Walked-skip :
    (a b : List Text) (i j i' j' : ℕ) (r : Option (List (ℕ × ℕ)))
    → i ≤ i'
    → j ≤ j'
    → best (drop i' a) (drop j' b) ≡ best (drop i a) (drop j b)
    → Walked a b i' j' r
    → Walked a b i j r
Walked-skip a b i j i' j' r hi hj same (ks, e, common, long) =
    (ks, e, IsCommon-later a b i j i' j' ks hi hj common, long ∙ same)

best-differ :
    (a b : List Text) (i j : ℕ) (x y : Text)
    → get_elem? a i ≡ some x
    → get_elem? b j ≡ some y
    → text_eq x y ≡ false
    → best (drop i a) (drop j b)
      ≡ (max (best (drop (suc i) a) (drop j b)) (best (drop i a) (drop (suc j) b)))
unfolding best
best-differ a b i j x y at_i at_j differ =
    rw (drop-get_elem? a i x at_i, drop-get_elem? b j y at_j, differ) refl

-- The walk goes where the table promises as much.
best-next :
    (a b : List Text) (i j : ℕ) (x y : Text)
    → get_elem? a i ≡ some x
    → get_elem? b j ≡ some y
    → text_eq x y ≡ false
    → best (drop i a) (drop j b) ≡ (
        if leb (cell_at (fill_table a b) i (suc j)) (cell_at (fill_table a b) (suc i) j)
        then best (drop (suc i) a) (drop j b)
        else best (drop i a) (drop (suc j) b))
best-next a b i j x y at_i at_j differ =
    rw (cell_at-fill_table a b i (suc j), cell_at-fill_table a b (suc i) j)
      (ground (arith, best-differ a b i j x y at_i at_j differ))

length-drop :
    {A : Type 0} (xs : List A) (i : ℕ) (x : A)
    → get_elem? xs i ≡ some x
    → length (drop i xs) ≡ suc (length (drop (suc i) xs))
length-drop xs i x h = ap length (drop-get_elem? xs i x h)

walk_table-Walked :
    (a b : List Text) (fuel i j : ℕ)
    → length (drop i a) + length (drop j b) < fuel
    → Walked a b i j (walk_table (fill_table a b) a b fuel i j)
unfolding walk_table best
walk_table-Walked a b zero i j enough = absurd (omega arith)
walk_table-Walked a b (suc fuel) i j enough = elim (Option-cases (get_elem? a i)) [
  | inl past ↦ rw (past, walk_table) ([], refl, tt, rw (drop_past a i past) refl)
  | inr (x, at_i) ↦ elim (Option-cases (get_elem? b j)) [
    | inl past ↦
        rw (at_i, past, walk_table)
          ([], refl, tt, rw (drop_past b j past) (sym (best-nil (drop i a))))
    | inr (y, at_j) ↦ elim (Bool-cases (text_eq x y)) [
      | inl equal ↦
          rw (at_i, at_j, equal, walk_table)
            (Walked-with_pair a b i j _ (x, at_i, rw ((text_eq_iff x y).0 equal) at_j)
              (walk_table-Walked a b fuel (suc i) (suc j)
                (omega (arith, length-drop a i x at_i, length-drop b j y at_j))))
      | inr differ ↦
          elim (Bool-cases
            (leb (cell_at (fill_table a b) i (suc j)) (cell_at (fill_table a b) (suc i) j))) [
              | inl down ↦
                  rw (at_i, at_j, differ, down, walk_table)
                    (Walked-skip a b i j (suc i) j _ (omega arith) (omega arith)
                      (ground (arith, best-next a b i j x y at_i at_j differ))
                      (walk_table-Walked a b fuel (suc i) j
                        (omega (arith, length-drop a i x at_i))))
              | inr right ↦
                  rw (at_i, at_j, differ, right, walk_table)
                    (Walked-skip a b i j i (suc j) _ (omega arith) (omega arith)
                      (ground (arith, best-next a b i j x y at_i at_j differ))
                      (walk_table-Walked a b fuel i (suc j)
                        (omega (arith, length-drop b j y at_j))))
            ]
    ]
  ]
]

best-null : (a b : List Text) → (null a || null b) ≡ true → best a b ≡ 0
unfolding best
best-null [] b h = refl
best-null (x ∷ a) [] h = refl
best-null (x ∷ a) (y ∷ b) h = cc

lcs_keep-Walked : (a b : List Text) → Walked (take max_n a) (take max_n b) 0 0 (lcs_keep a b)
unfolding lcs_keep
lcs_keep-Walked a b = elim (Bool-cases (null (take max_n a) || null (take max_n b))) [
  | inl nothing ↦
      rw nothing ([], refl, tt, omega (arith, best-null (take max_n a) (take max_n b) nothing))
  | inr something ↦
      rw something (walk_table-Walked (take max_n a) (take max_n b) _ 0 0 (omega arith))
]

-- The walk of `lcsKeep` ends, for all lines. What it keeps is a common subsequence of the first 2000
-- lines on either side, pairs of indices of equal lines that both grow, and none is longer.
pub lcs_keep-IsLongest :
    (a b : List Text)
    → (ks : List (ℕ × ℕ)) × (lcs_keep a b ≡ some ks)
      × IsCommon (take max_n a) (take max_n b) 0 0 ks
      × ((other : List (ℕ × ℕ))
          → IsCommon (take max_n a) (take max_n b) 0 0 other
          → length other ≤ length ks)
lcs_keep-IsLongest a b =
    let (ks, kept, common, long) = lcs_keep-Walked a b in
    (
      ks,
      kept,
      common,
      λ other h. omega (arith, long, length-IsCommon (take max_n a) (take max_n b) 0 0 other h),
    )

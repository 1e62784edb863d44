-- ===== src/Page/Reference.antt =====
-- The length of a longest common subsequence by its recursive definition, and the table that holds it.
use Prim.Native.Nat.{max}
use rssam.Common.{
  ℕ, zero, suc, ◌≤◌, ◌≡◌, refl, ap, List, [], ◌∷◌, get_elem?, drop, if◌then◌else◌, arith,
}
use rssam.Common.Text.{Text, text_eq, text_eq_iff}
use rssam.Page.{fill_row, fill_table, zeros, head_or_zero, head_or_empty, cell_at, cell_of}

unfoldable pub best : List Text → List Text → ℕ
best [] b = 0
best (x ∷ xs) [] = 0
best (x ∷ xs) (y ∷ ys) =
    if text_eq x y then suc (best xs ys) else max (best xs (y ∷ ys)) (best (x ∷ xs) ys)

pub best-nil : (a : List Text) → best a [] ≡ 0
unfolding best
best-nil [] = refl
best-nil (x ∷ xs) = refl

-- One more line adds one at most, and takes nothing.
best-cons_le : (a b : List Text) (y : Text) → best a (y ∷ b) ≤ suc (best a b)
unfolding best
best-cons_le [] b y = omega arith
best-cons_le (x ∷ xs) [] y = ground (arith, best-cons_le xs [] y, best-nil xs)
best-cons_le (x ∷ xs) (z ∷ b) y = ground (arith, best-cons_le xs (z ∷ b) y, best-cons_le xs b z)

pub best-le-cons : (a b : List Text) (x : Text) → best a b ≤ best (x ∷ a) b
unfolding best
best-le-cons a [] x = rw (best-nil a) (omega arith)
best-le-cons a (y ∷ b) x = ground (arith, best-cons_le a b y)

best_comm : (a b : List Text) → best a b ≡ best b a
unfolding best
best_comm [] [] = refl
best_comm [] (y ∷ b) = refl
best_comm (x ∷ a) [] = refl
best_comm (x ∷ a) (y ∷ b) = ground (
  arith,
  text_eq_iff x y,
  text_eq_iff y x,
  best_comm a b,
  best_comm a (y ∷ b),
  best_comm (x ∷ a) b,
)

pub best-le-cons_right : (a b : List Text) (y : Text) → best a b ≤ best a (y ∷ b)
best-le-cons_right a b y = omega (arith, best_comm a b, best_comm a (y ∷ b), best-le-cons b a y)

-- The rows and the table that the reference fills.
row_best : List Text → List Text → List ℕ
row_best a [] = 0 ∷ []
row_best a (y ∷ ys) = best a (y ∷ ys) ∷ row_best a ys

table_best : List Text → List Text → List (List ℕ)
table_best [] b = row_best [] b ∷ []
table_best (x ∷ xs) b = row_best (x ∷ xs) b ∷ table_best xs b

head-row_best : (a b : List Text) → head_or_zero (row_best a b) ≡ best a b
unfolding row_best
head-row_best a [] = ground (arith, best-nil a)
head-row_best a (y ∷ b) = refl

fill_row-row_best : (x : Text) (a b : List Text) → fill_row x b (row_best a b) ≡ row_best (x ∷ a) b
unfolding fill_row row_best best
fill_row-row_best x a [] = refl
fill_row-row_best x a (y ∷ ys) =
    rw (fill_row-row_best x a ys, head-row_best a ys, head-row_best (x ∷ a) ys) refl

zeros-row_best : (b : List Text) → zeros b ≡ row_best [] b
unfolding row_best best
zeros-row_best [] = refl
zeros-row_best (y ∷ b) = ap (λ row. 0 ∷ row) (zeros-row_best b)

head-table_best : (a b : List Text) → head_or_empty (table_best a b) ≡ row_best a b
unfolding table_best
head-table_best [] b = refl
head-table_best (x ∷ a) b = refl

fill_table-table_best : (a b : List Text) → fill_table a b ≡ table_best a b
unfolding fill_table table_best
fill_table-table_best [] b = ap (λ row. row ∷ []) (zeros-row_best b)
fill_table-table_best (x ∷ a) b =
    rw (fill_table-table_best a b, head-table_best a b, fill_row-row_best x a b) refl

cell-row_best : (a b : List Text) (j : ℕ) → cell_of (get_elem? (row_best a b) j) ≡ best a (drop j b)
unfolding row_best
cell-row_best a [] zero = omega (arith, best-nil a)
cell-row_best a [] (suc j) = omega (arith, best-nil a)
cell-row_best a (y ∷ ys) zero = refl
cell-row_best a (y ∷ ys) (suc j) = cell-row_best a ys j

cell-table_best :
    (a b : List Text) (i j : ℕ) → cell_at (table_best a b) i j ≡ best (drop i a) (drop j b)
unfolding table_best row_best best
cell-table_best [] b zero j = cell-row_best [] b j
cell-table_best [] b (suc i) j = refl
cell-table_best (x ∷ a) b zero j = cell-row_best (x ∷ a) b j
cell-table_best (x ∷ a) b (suc i) j = cell-table_best a b i j

-- Every cell of the filled table holds the length of a longest common subsequence of the rests.
pub cell_at-fill_table :
    (a b : List Text) (i j : ℕ) → cell_at (fill_table a b) i j ≡ best (drop i a) (drop j b)
cell_at-fill_table a b i j = rw (fill_table-table_best a b) (cell-table_best a b i j)

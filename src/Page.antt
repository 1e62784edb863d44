-- ===== src/Page.antt =====
-- internal/reader/page/diff.go: what changed on a page between two snapshots of its text. The caps
-- keep the numbers of the table far below the bounds of an `int32`, so they do not wrap.
pub mod Reference
pub mod Kept
pub mod Exact
pub mod Equal
pub mod Tests
use Prim.Native.Nat.{max}
use rssam.Common.{
  ℕ, zero, suc, ◌+◌, ◌-◌, Bool, ◌||◌, ◌&&◌, Option, none, some, List, [], ◌∷◌, ◌++◌, map, null,
  length, get_elem?, take, drop, leb, if◌then◌else◌,
}
use rssam.Common.Text.{Text, text_eq, codes, escape_string, split}

abbrev pub newline : ℕ
newline = 10

unfoldable pub split_lines : Text → List Text
split_lines s = if null s then [] else split newline s

abbrev pub head_or_zero : List ℕ → ℕ
head_or_zero [] = 0
head_or_zero (cell ∷ row) = cell

abbrev pub tail : List ℕ → List ℕ
tail [] = []
tail (cell ∷ row) = row

-- A row of `dp` from the last column to the first; `below` is the row of the next line.
unfoldable pub fill_row : Text → List Text → List ℕ → List ℕ
fill_row x [] below = 0 ∷ []
fill_row x (y ∷ ys) below =
    let rest = fill_row x ys (tail below) in
    let cell =
      if text_eq x y
      then suc (head_or_zero (tail below))
      else max (head_or_zero below) (head_or_zero rest) in
    cell ∷ rest

abbrev pub zeros : List Text → List ℕ
zeros [] = 0 ∷ []
zeros (y ∷ ys) = 0 ∷ zeros ys

abbrev pub head_or_empty : List (List ℕ) → List ℕ
head_or_empty [] = []
head_or_empty (row ∷ rows) = row

-- The table `dp`, from the last row to the first.
unfoldable pub fill_table : List Text → List Text → List (List ℕ)
fill_table [] b = zeros b ∷ []
fill_table (x ∷ xs) b = let rows = fill_table xs b in fill_row x b (head_or_empty rows) ∷ rows

abbrev pub cell_of : Option ℕ → ℕ
cell_of none = 0
cell_of (some n) = n

abbrev pub row_of : Option (List ℕ) → List ℕ
row_of none = []
row_of (some row) = row

-- `dp[i][j]`
abbrev pub cell_at : List (List ℕ) → ℕ → ℕ → ℕ
cell_at dp i j = cell_of (get_elem? (row_of (get_elem? dp i)) j)

abbrev pub with_pair : ℕ × ℕ → Option (List (ℕ × ℕ)) → Option (List (ℕ × ℕ))
with_pair k none = none
with_pair k (some ks) = some (k ∷ ks)

-- The loop over `i` and `j`, on fuel; `none` means that the fuel ran out.
unfoldable pub walk_table :
    List (List ℕ) → List Text → List Text → ℕ → ℕ → ℕ → Option (List (ℕ × ℕ))
walk_table dp a b zero i j = none
walk_table dp a b (suc fuel) i j = elim (get_elem? a i) [
  | none ↦ some []
  | some x ↦ elim (get_elem? b j) [
    | none ↦ some []
    | some y ↦ elim (text_eq x y) [
      | Bool.true ↦ with_pair (i, j) (walk_table dp a b fuel (suc i) (suc j))
      | Bool.false ↦ elim (leb (cell_at dp i (suc j)) (cell_at dp (suc i) j)) [
        | Bool.true ↦ walk_table dp a b fuel (suc i) j
        | Bool.false ↦ walk_table dp a b fuel i (suc j)
      ]
    ]
  ]
]

abbrev pub max_n : ℕ
max_n = 2000

unfoldable pub lcs_keep : List Text → List Text → Option (List (ℕ × ℕ))
lcs_keep a b =
    let a' = take max_n a in
    let b' = take max_n b in
    if null a' || null b'
    then some []
    else walk_table (fill_table a' b') a' b' (suc (length a' + length b')) 0 0

-- The lines from `i` on that no kept index names: `removed` of the old lines and `added` of the new.
unfoldable pub gaps : ℕ → List ℕ → List Text → List Text
gaps i [] lines = drop i lines
gaps i (k ∷ ks) lines = take (k - i) (drop i lines) ++ gaps (suc k) ks lines

abbrev pub first_of : ℕ × ℕ → ℕ
first_of (p, q) = p

abbrev pub second_of : ℕ × ℕ → ℕ
second_of (p, q) = q

-- The removed and the added lines.
unfoldable pub changes : List Text → List Text → List (ℕ × ℕ) → List Text × List Text
changes old_lines new_lines keep =
    (gaps 0 (map first_of keep) old_lines, gaps 0 (map second_of keep) new_lines)

-- `writeLines` with `left` lines to go before the ellipsis, whose three bytes stand in the clause.
unfoldable pub write_lines : ℕ → Text → List Text → Text
write_lines left tag [] = []
write_lines zero tag (line ∷ lines) = codes "<p>" ++ (226 ∷ 128 ∷ 166 ∷ codes "</p>")
write_lines (suc left) tag (line ∷ lines) =
    codes "<p><"
    ++ (tag
        ++ (codes ">"
            ++ (escape_string line
                ++ (codes "</" ++ (tag ++ (codes "></p>" ++ write_lines left tag lines))))))

abbrev pub max_lines : ℕ
max_lines = 50

abbrev pub render : List Text × List Text → Text
render (removed, added) =
    if null removed && null added
    then []
    else (codes "<div class=\"page-diff\">"
        ++ (write_lines max_lines (codes "ins") added
            ++ (write_lines max_lines (codes "del") removed ++ codes "</div><hr>")))

abbrev pub rendered : List Text → List Text → Option (List (ℕ × ℕ)) → Option Text
rendered old_lines new_lines none = none
rendered old_lines new_lines (some keep) = some (render (changes old_lines new_lines keep))

-- `diffHTML`; `none` stands for a loop without an end, which Page.Kept excludes.
unfoldable pub diff_html : Text → Text → Option Text
diff_html old_text new_text =
    let old_lines = split_lines old_text in
    let new_lines = split_lines new_text in
    rendered old_lines new_lines (lcs_keep old_lines new_lines)

-- ===== src/Page/Tests.antt =====
-- Differences of small snapshots, and the theorems applied to them.
use rssam.Common.{ℕ, ◌+◌, ◌≡◌, ◌≤◌, ◌↔◌, refl, some, List, [], ◌∷◌, length, take, arith}
use rssam.Common.Text.{Text, codes, split, times, escape_string}
use rssam.Page.{
  lcs_keep, walk_table, fill_table, fill_row, gaps, max_n, changes, split_lines, write_lines,
  diff_html,
}
use rssam.Page.Kept.{IsCommon, lcs_keep-IsLongest}
use rssam.Page.Exact.{times-changes}
use rssam.Page.Equal.{diff_html-nil_iff}

page : Unit {0}
unfolding lcs_keep walk_table fill_table fill_row changes gaps split_lines split diff_html
    write_lines escape_string
page = tt

abbrev old_text : Text
old_text = codes "a\nb\nc"

abbrev new_text : Text
new_text = codes "a\nc\n<d>"

abbrev old_lines : List Text
old_lines = codes "a" ∷ codes "b" ∷ codes "c" ∷ []

abbrev new_lines : List Text
new_lines = codes "a" ∷ codes "c" ∷ codes "<d>" ∷ []

diff_runs :
    (lcs_keep old_lines new_lines ≡ some ((0, 0) ∷ (2, 1) ∷ []))
    × (changes old_lines new_lines ((0, 0) ∷ (2, 1) ∷ []) ≡ (codes "b" ∷ [], codes "<d>" ∷ []))
    × (diff_html old_text new_text
        ≡ some (
            codes
              "<div class=\"page-diff\"><p><ins>&lt;d&gt;</ins></p><p><del>b</del></p></div><hr>"))
    × (diff_html old_text old_text ≡ some [])
unfolding page
diff_runs = (refl, refl, refl, refl)

lcs_keep-IsLongest_example :
    (ks : List (ℕ × ℕ)) × (lcs_keep old_lines new_lines ≡ some ks)
    × IsCommon (take max_n old_lines) (take max_n new_lines) 0 0 ks
    × ((other : List (ℕ × ℕ))
        → IsCommon (take max_n old_lines) (take max_n new_lines) 0 0 other
        → length other ≤ length ks)
lcs_keep-IsLongest_example = lcs_keep-IsLongest old_lines new_lines

times-changes_example :
    (keep : List (ℕ × ℕ)) × (lcs_keep old_lines new_lines ≡ some keep)
    × ((t : Text)
        → times t old_lines + times t (changes old_lines new_lines keep).1
          ≡ (times t new_lines + times t (changes old_lines new_lines keep).0))
    × ((other : List (ℕ × ℕ))
        → IsCommon (take max_n old_lines) (take max_n new_lines) 0 0 other
        → (length (changes old_lines new_lines keep).0 + length other ≤ length old_lines)
          × (length (changes old_lines new_lines keep).1 + length other ≤ length new_lines))
times-changes_example = times-changes old_lines new_lines

diff_html-nil_iff_example :
    (html : Text) × (diff_html old_text new_text ≡ some html)
    × ((html ≡ []) ↔ (split_lines old_text ≡ split_lines new_text))
unfolding split_lines split
diff_html-nil_iff_example = diff_html-nil_iff old_text new_text short
  where
    short : length (split_lines old_text) ≤ max_n
    short = omega arith

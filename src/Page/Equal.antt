-- ===== src/Page/Equal.antt =====
-- When the difference of two snapshots is empty.
use mathlib.Core.Path.{subst}
use rssam.Common.{
  ℕ, zero, suc, ◌≤◌, ◌≡◌, ◌↔◌, refl, sym, ap, ◌∙◌, some, List, [], ◌∷◌, ◌++◌, map, length,
  length-map, get_elem?, take, drop, arith,
}
use rssam.Common.Text.{Text}
use rssam.Page.{
  lcs_keep, max_n, gaps, first_of, second_of, changes, split_lines, render, rendered, diff_html,
}
use rssam.Page.Kept.{IsCommon, drop-get_elem?, lcs_keep-IsLongest}
use rssam.Page.Exact.{Names, named_by, length-gaps, take-append-drop, take_all}

-- Lines that leave no gap are the named ones.
gaps-nil :
    (i : ℕ) (ks : List ℕ) (lines xs : List Text)
    → Names i ks lines xs
    → gaps i ks lines ≡ []
    → drop i lines ≡ xs
unfolding gaps
gaps-nil i [] lines xs h none_left = none_left ∙ sym h
gaps-nil i (k ∷ ks) lines [] h none_left = absurd h
gaps-nil i (k ∷ ks) lines (x ∷ xs) (hi, at_k, rest) none_left =
    sym (take-append-drop lines i k hi)
    ∙ ap (λ gap. gap ++ drop k lines) (append-nil_left _ _ none_left)
    ∙ drop-get_elem? lines k x at_k
    ∙ ap (λ r. x ∷ r) (gaps-nil (suc k) ks lines xs rest (append-nil_right _ _ none_left))
  where
    append-nil_left : (us vs : List Text) → us ++ vs ≡ [] → us ≡ []
    append-nil_left [] vs h = refl
    append-nil_left (u ∷ us) vs h = cc

    append-nil_right : (us vs : List Text) → us ++ vs ≡ [] → vs ≡ []
    append-nil_right [] vs h = h
    append-nil_right (u ∷ us) vs h = cc

-- Equal lines have themselves in common.
diagonal : ℕ → List Text → List (ℕ × ℕ)
diagonal i [] = []
diagonal i (x ∷ xs) = (i, i) ∷ diagonal (suc i) xs

length-diagonal : (i : ℕ) (xs : List Text) → length (diagonal i xs) ≡ length xs
unfolding diagonal
length-diagonal i [] = refl
length-diagonal i (x ∷ xs) = ap suc (length-diagonal (suc i) xs)

of_drop :
    (a : List Text) (i : ℕ) (x : Text) (xs : List Text)
    → drop i a ≡ x ∷ xs
    → (get_elem? a i ≡ some x) × (drop (suc i) a ≡ xs)
of_drop [] zero x xs h = cc
of_drop [] (suc i) x xs h = cc
of_drop (y ∷ a) zero x xs h = ground arith
of_drop (y ∷ a) (suc i) x xs h = of_drop a i x xs h

diagonal-IsCommon :
    (a : List Text) (i : ℕ) (xs : List Text) → drop i a ≡ xs → IsCommon a a i i (diagonal i xs)
unfolding diagonal
diagonal-IsCommon a i [] h = tt
diagonal-IsCommon a i (x ∷ xs) h =
    let (at_i, rest) = of_drop a i x xs h in
    (omega arith, omega arith, (x, at_i, at_i), diagonal-IsCommon a (suc i) xs rest)

length-eq-zero : (us : List Text) → length us ≡ 0 → us ≡ []
length-eq-zero [] h = refl
length-eq-zero (u ∷ us) h = absurd (omega (arith, h))

-- Equal lines are all kept.
changes-equal :
    (a : List Text) (ks : List (ℕ × ℕ)) (xs : List Text)
    → length a ≤ length ks
    → Names 0 (map first_of ks) a xs
    → Names 0 (map second_of ks) a xs
    → changes a a ks ≡ ([], [])
unfolding changes
changes-equal a ks xs long in_old in_new = ground (
  arith,
  length-eq-zero (gaps 0 (map first_of ks) a)
      (omega (arith, length-gaps 0 (map first_of ks) a xs in_old, length-map first_of ks)),
  length-eq-zero (gaps 0 (map second_of ks) a)
      (omega (arith, length-gaps 0 (map second_of ks) a xs in_new, length-map second_of ks)),
)

changes_cases : (r : List Text × List Text) → render r ≡ [] → r ≡ ([], [])
changes_cases ([], []) h = refl
changes_cases ([], n ∷ ns) h = cc
changes_cases (o ∷ os, ns) h = cc

rendered_self : (a : List Text) → length a ≤ max_n → rendered a a (lcs_keep a a) ≡ some []
rendered_self a short =
    let (keep, kept, common, longest) = lcs_keep-IsLongest a a in
    let (xs, in_old, in_new) = named_by a a 0 0 keep common in
    let whole = take_all max_n a short in
    let long =
      longest (diagonal 0 (take max_n a))
        (diagonal-IsCommon (take max_n a) 0 (take max_n a) refl) in
    rw kept (
      ap (λ r. some (render r))
        (changes-equal a keep xs
          (omega (arith, long, length-diagonal 0 (take max_n a), ap length whole)) in_old in_new))

lines_of_rendered :
    (a b : List Text) (html : Text) → rendered a b (lcs_keep a b) ≡ some html → html ≡ [] → a ≡ b
unfolding changes
lines_of_rendered a b html h empty =
    let (keep, kept, common, _) = lcs_keep-IsLongest a b in
    let (xs, in_old, in_new) = named_by a b 0 0 keep common in
    let shown : some (render (changes a b keep)) ≡ some html = rw kept at h in
    let none_left = changes_cases (changes a b keep) (cc) in
    gaps-nil 0 (map first_of keep) a xs in_old (ap (λ r. r.0) none_left)
    ∙ sym (gaps-nil 0 (map second_of keep) b xs in_new (ap (λ r. r.1) none_left))

rendered_ends : (a b : List Text) → (html : Text) × (rendered a b (lcs_keep a b) ≡ some html)
rendered_ends a b =
    let (keep, kept, _, _) = lcs_keep-IsLongest a b in (render (changes a b keep), rw kept refl)

some_inj : (s t : Text) → some s ≡ some t → s ≡ t
some_inj s t h = cc

rendered-nil :
    (a b : List Text) (html : Text)
    → length a ≤ max_n
    → rendered a b (lcs_keep a b) ≡ some html
    → a ≡ b
    → html ≡ []
rendered-nil a b html short h e = some_inj html [] (
    sym h
    ∙ subst (λ (lines : List Text). rendered a lines (lcs_keep a lines) ≡ some []) e
        (rendered_self a short))

-- For an old snapshot of at most 2000 lines, `diffHTML` returns, and its result is empty exactly if the
-- lines are the same.
pub diff_html-nil_iff :
    (old_text new_text : Text)
    → length (split_lines old_text) ≤ max_n
    → (html : Text) × (diff_html old_text new_text ≡ some html)
      × ((html ≡ []) ↔ (split_lines old_text ≡ split_lines new_text))
unfolding diff_html
diff_html-nil_iff old_text new_text short =
    let (html, ends) = rendered_ends (split_lines old_text) (split_lines new_text) in
    (
      html,
      ends,
      (
        λ empty. lines_of_rendered (split_lines old_text) (split_lines new_text) html ends empty,
        λ e. rendered-nil (split_lines old_text) (split_lines new_text) html short ends e,
      ),
    )

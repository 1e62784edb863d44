-- ===== src/Page/Exact.antt =====
-- What is shown as removed and added is what tells the two snapshots apart.
use rssam.Common.{
  ℕ, zero, suc, ◌+◌, ◌-◌, ◌≤◌, ◌≡◌, refl, ap, some, List, [], ◌∷◌, ◌++◌, map, length, length-append,
  length-map, get_elem?, take, drop, arith,
}
use rssam.Common.Text.{Text, times, times-append}
use rssam.Page.{lcs_keep, max_n, gaps, first_of, second_of, changes}
use rssam.Page.Kept.{IsCommon, drop-get_elem?, lcs_keep-IsLongest}

-- Growing indices from `i` on, and the lines that they name.
abbrev pub Names : ℕ → List ℕ → List Text → List Text → Type 0
Names i [] lines xs = xs ≡ []
Names i (k ∷ ks) lines [] = ⊥
Names i (k ∷ ks) lines (x ∷ xs) = (i ≤ k) × (get_elem? lines k ≡ some x) × Names (suc k) ks lines xs

module _ {ℓ} {A : Type ℓ} where
  get_elem?-take :
      (n : ℕ) (xs : List A) (i : ℕ) (x : A)
      → get_elem? (take n xs) i ≡ some x
      → get_elem? xs i ≡ some x
  get_elem?-take zero xs i x h = cc
  get_elem?-take (suc n) [] i x h = cc
  get_elem?-take (suc n) (y ∷ xs) zero x h = h
  get_elem?-take (suc n) (y ∷ xs) (suc i) x h = get_elem?-take n xs i x h

  drop-nil : (n : ℕ) → drop {A = A} n [] ≡ []
  drop-nil zero = refl
  drop-nil (suc n) = refl

  take-append-drop_self : (n : ℕ) (xs : List A) → take n xs ++ drop n xs ≡ xs
  take-append-drop_self zero xs = refl
  take-append-drop_self (suc n) [] = refl
  take-append-drop_self (suc n) (x ∷ xs) = ap (λ rest. x ∷ rest) (take-append-drop_self n xs)

  drop-drop : (xs : List A) (n i k : ℕ) → k ≡ n + i → drop n (drop i xs) ≡ drop k xs
  drop-drop xs n zero k e = ap (λ m. drop m xs) (omega (arith, e))
  drop-drop xs n (suc i) zero e = absurd (omega arith)
  drop-drop [] n (suc i) (suc k) e = drop-nil n
  drop-drop (x ∷ xs) n (suc i) (suc k) e = drop-drop xs n i k (omega arith)

  pub take-append-drop :
      (xs : List A) (i k : ℕ) → i ≤ k → take (k - i) (drop i xs) ++ drop k xs ≡ drop i xs
  take-append-drop xs i k h =
      rw (← drop-drop xs (k - i) i k (omega arith)) (take-append-drop_self (k - i) (drop i xs))

  pub take_all : (n : ℕ) (xs : List A) → length xs ≤ n → take n xs ≡ xs
  take_all zero [] h = refl
  take_all zero (x ∷ xs) h = absurd (omega arith)
  take_all (suc n) [] h = refl
  take_all (suc n) (x ∷ xs) h = ap (λ rest. x ∷ rest) (take_all n xs (omega arith))

-- Both sides of a common subsequence name the same lines.
pub named_by :
    (a b : List Text) (i j : ℕ) (ks : List (ℕ × ℕ))
    → IsCommon (take max_n a) (take max_n b) i j ks
    → (xs : List Text) × Names i (map first_of ks) a xs × Names j (map second_of ks) b xs
named_by a b i j [] h = ([], refl, refl)
named_by a b i j ((p, q) ∷ ks) (hi, hj, (x, at_p, at_q), rest) =
    let (xs, in_a, in_b) = named_by a b (suc p) (suc q) ks rest in
    (
      x ∷ xs,
      (hi, get_elem?-take max_n a p x at_p, in_a),
      (hj, get_elem?-take max_n b q x at_q, in_b),
    )

-- The gaps and the named lines make up the lines.
times-gaps :
    (t : Text) (i : ℕ) (ks : List ℕ) (lines xs : List Text)
    → Names i ks lines xs
    → times t (gaps i ks lines) + times t xs ≡ times t (drop i lines)
unfolding gaps
times-gaps t i [] lines xs h = rw h (omega arith)
times-gaps t i (k ∷ ks) lines [] h = absurd h
times-gaps t i (k ∷ ks) lines (x ∷ xs) (hi, at_k, rest) = ground (
  arith,
  times-append t (take (k - i) (drop i lines)) (gaps (suc k) ks lines),
  times-append t (take (k - i) (drop i lines)) (drop k lines),
  ap (times t) (take-append-drop lines i k hi),
  ap (times t) (drop-get_elem? lines k x at_k),
  times-gaps t (suc k) ks lines xs rest,
)

pub length-gaps :
    (i : ℕ) (ks : List ℕ) (lines xs : List Text)
    → Names i ks lines xs
    → length (gaps i ks lines) + length ks ≡ length (drop i lines)
unfolding gaps
length-gaps i [] lines xs h = omega arith
length-gaps i (k ∷ ks) lines [] h = absurd h
length-gaps i (k ∷ ks) lines (x ∷ xs) (hi, at_k, rest) = omega (
  arith,
  length-append (take (k - i) (drop i lines)) (gaps (suc k) ks lines),
  length-append (take (k - i) (drop i lines)) (drop k lines),
  ap length (take-append-drop lines i k hi),
  ap length (drop-get_elem? lines k x at_k),
  length-gaps (suc k) ks lines xs rest,
)

-- The lines that `diffHTML` finds removed and added, of which it shows up to 50 a side, are exactly the
-- difference of the lines, for all lines: one that stands so often among the old lines and the added
-- ones stands as often among the new lines and the removed ones. They are as few as can be: whatever
-- lines the first 2000 of both sides have in common in the same order, no more of the old ones are
-- removed, and no more of the new ones are added, than those leave out.
pub times-changes :
    (old_lines new_lines : List Text)
    → (keep : List (ℕ × ℕ)) × (lcs_keep old_lines new_lines ≡ some keep)
      × ((t : Text)
          → times t old_lines + times t (changes old_lines new_lines keep).1
            ≡ (times t new_lines + times t (changes old_lines new_lines keep).0))
      × ((other : List (ℕ × ℕ))
          → IsCommon (take max_n old_lines) (take max_n new_lines) 0 0 other
          → (length (changes old_lines new_lines keep).0 + length other ≤ length old_lines)
            × (length (changes old_lines new_lines keep).1 + length other ≤ length new_lines))
unfolding changes
times-changes old_lines new_lines =
    let (keep, kept, common, longest) = lcs_keep-IsLongest old_lines new_lines in
    let (xs, in_old, in_new) = named_by old_lines new_lines 0 0 keep common in
    (
      keep,
      kept,
      λ t. omega (
        arith,
        times-gaps t 0 (map first_of keep) old_lines xs in_old,
        times-gaps t 0 (map second_of keep) new_lines xs in_new,
      ),
      λ other h. (
        omega (
          arith,
          longest other h,
          length-map first_of keep,
          length-gaps 0 (map first_of keep) old_lines xs in_old,
        ),
        omega (
          arith,
          longest other h,
          length-map second_of keep,
          length-gaps 0 (map second_of keep) new_lines xs in_new,
        ),
      ),
    )

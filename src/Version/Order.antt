-- ===== src/Version/Order.antt =====
-- The order of the versions is one: it agrees with itself from both sides.
use rssam.Common.{
  zero, suc, ◌≡◌, refl, true, false, Option, none, some, [], ◌∷◌, Bool-cases, inl, inr, arith,
}
use rssam.Common.Int.{ℤ, pos, negsuc, leb_ℤ}
use rssam.Common.Text.{Text, text_eq, text_eq_iff}
use rssam.Version.{
  text_compare, normalize, semver_suffix, parse_semver, git_describe_ahead, by_number_then,
  compare_rests, compare_semver_suffix, compare_parsed, compare_semver,
}

abbrev pub negate : ℤ → ℤ
negate (pos zero) = pos 0
negate (pos (suc n)) = negsuc n
negate (negsuc n) = pos (suc n)

text_compare-negate : (s t : Text) → text_compare t s ≡ negate (text_compare s t)
unfolding text_compare
text_compare-negate [] [] = refl
text_compare-negate [] (d ∷ t) = refl
text_compare-negate (c ∷ s) [] = refl
text_compare-negate (c ∷ s) (d ∷ t) = ground (arith, text_compare-negate s t)

by_number_then-negate :
    (a b rest rest' : ℤ)
    → rest' ≡ negate rest
    → by_number_then b a rest' ≡ negate (by_number_then a b rest)
by_number_then-negate a b rest rest' h = ground arith

compare_rests-negate :
    (a b : Text) (m n : Option ℤ)
    → text_eq a b ≡ false
    → compare_rests b a n m ≡ negate (compare_rests a b m n)
compare_rests-negate a b (some m) (some n) h = ground arith
compare_rests-negate a b (some m) none h = refl
compare_rests-negate a b none (some n) h = refl
compare_rests-negate [] [] none none h = cc
compare_rests-negate [] (d ∷ b) none none h = refl
compare_rests-negate (c ∷ a) [] none none h = refl
compare_rests-negate (c ∷ a) (d ∷ b) none none h = text_compare-negate (c ∷ a) (d ∷ b)

text_eq_comm : (a b : Text) → text_eq b a ≡ text_eq a b
text_eq_comm a b = ground (arith, text_eq_iff a b, text_eq_iff b a)

compare_semver_suffix-negate :
    (a b : Text) → compare_semver_suffix b a ≡ negate (compare_semver_suffix a b)
unfolding compare_semver_suffix
compare_semver_suffix-negate a b = elim (Bool-cases (text_eq (semver_suffix a) (semver_suffix b))) [
  | inl same ↦ rw (text_eq_comm (semver_suffix a) (semver_suffix b), same) refl
  | inr other ↦
      rw (text_eq_comm (semver_suffix a) (semver_suffix b), other)
        (compare_rests-negate (semver_suffix a) (semver_suffix b)
          (git_describe_ahead (semver_suffix a)) (git_describe_ahead (semver_suffix b)) other)
]

compare_parsed-negate :
    (a b : Text) (v w : Option (ℤ × ℤ × ℤ))
    → compare_parsed b a w v ≡ negate (compare_parsed a b v w)
compare_parsed-negate a b none none = text_compare-negate a b
compare_parsed-negate a b none (some w) = refl
compare_parsed-negate a b (some v) none = refl
compare_parsed-negate a b (some (x, y, z)) (some (p, q, r)) = by_number_then-negate x p _ _ (
    by_number_then-negate y q _ _
      (by_number_then-negate z r _ _ (compare_semver_suffix-negate a b)))

-- The comparison of two versions in the other order is the negation.
pub compare_semver-negate : (a b : Text) → compare_semver b a ≡ negate (compare_semver a b)
unfolding compare_semver
compare_semver-negate a b = elim (Bool-cases (text_eq (normalize a) (normalize b))) [
  | inl same ↦ rw (text_eq_comm (normalize a) (normalize b), same) refl
  | inr other ↦
      rw (text_eq_comm (normalize a) (normalize b), other)
        (compare_parsed-negate (normalize a) (normalize b) (parse_semver (normalize a))
          (parse_semver (normalize b)))
]

-- Not greater.
abbrev pub AtMost : ℤ → Type 0
AtMost x = leb_ℤ x (pos 0) ≡ true

text_compare_trans :
    (s t u : Text)
    → AtMost (text_compare s t)
    → AtMost (text_compare t u)
    → AtMost (text_compare s u)
unfolding text_compare
text_compare_trans [] [] u h k = k
text_compare_trans [] (d ∷ t) [] h k = refl
text_compare_trans [] (d ∷ t) (e ∷ u) h k = refl
text_compare_trans (c ∷ s) [] u h k = cc
text_compare_trans (c ∷ s) (d ∷ t) [] h k = cc
text_compare_trans (c ∷ s) (d ∷ t) (e ∷ u) h k = ground (arith, text_compare_trans s t u)

by_number_then_trans :
    (a b c r s t : ℤ)
    → (AtMost r → AtMost s → AtMost t)
    → AtMost (by_number_then a b r)
    → AtMost (by_number_then b c s)
    → AtMost (by_number_then a c t)
by_number_then_trans a b c r s t h p q = ground arith

compare_rests_trans :
    (a b c : Text) (l m n : Option ℤ)
    → text_eq a b ≡ false
    → text_eq b c ≡ false
    → AtMost (compare_rests a b l m)
    → AtMost (compare_rests b c m n)
    → AtMost (compare_rests a c l n)
compare_rests_trans a b c (some l) (some m) (some n) d e h k = ground arith
compare_rests_trans a b c (some l) (some m) none d e h k = cc
compare_rests_trans a b c (some l) none n d e h k = cc
compare_rests_trans a b c none m (some n) d e h k = refl
compare_rests_trans a b c none (some m) none d e h k = cc
compare_rests_trans [] [] c none none none d e h k = cc
compare_rests_trans [] (y ∷ b) c none none none d e h k = cc
compare_rests_trans (x ∷ a) b [] none none none d e h k = refl
compare_rests_trans (x ∷ a) [] (z ∷ c) none none none d e h k = cc
compare_rests_trans (x ∷ a) (y ∷ b) (z ∷ c) none none none d e h k =
    text_compare_trans (x ∷ a) (y ∷ b) (z ∷ c) h k

compare_semver_suffix_trans :
    (a b c : Text)
    → AtMost (compare_semver_suffix a b)
    → AtMost (compare_semver_suffix b c)
    → AtMost (compare_semver_suffix a c)
unfolding compare_semver_suffix
compare_semver_suffix_trans a b c h k =
    elim (Bool-cases (text_eq (semver_suffix a) (semver_suffix b))) [
      | inl same ↦ rw ((text_eq_iff (semver_suffix a) (semver_suffix b)).0 same) k
      | inr ab ↦ elim (Bool-cases (text_eq (semver_suffix b) (semver_suffix c))) [
        | inl same ↦ rw (← (text_eq_iff (semver_suffix b) (semver_suffix c)).0 same) h
        | inr bc ↦ elim (Bool-cases (text_eq (semver_suffix a) (semver_suffix c))) [
          | inl same ↦ rw same refl
          | inr ac ↦ rw ac (
              compare_rests_trans (semver_suffix a) (semver_suffix b) (semver_suffix c)
                (git_describe_ahead (semver_suffix a)) (git_describe_ahead (semver_suffix b))
                (git_describe_ahead (semver_suffix c)) ab bc (rw ab at h) (rw bc at k))
        ]
      ]
    ]

compare_parsed_trans :
    (a b c : Text) (u v w : Option (ℤ × ℤ × ℤ))
    → AtMost (compare_parsed a b u v)
    → AtMost (compare_parsed b c v w)
    → AtMost (compare_parsed a c u w)
compare_parsed_trans a b c none none none h k = text_compare_trans a b c h k
compare_parsed_trans a b c none v (some w) h k = refl
compare_parsed_trans a b c none (some v) none h k = cc
compare_parsed_trans a b c (some u) none w h k = cc
compare_parsed_trans a b c (some u) (some v) none h k = cc
compare_parsed_trans a b c (some (u, v, w)) (some (p, q, r)) (some (x, y, z)) h k =
    by_number_then_trans u p x _ _ _
      (by_number_then_trans v q y _ _ _
        (by_number_then_trans w r z _ _ _ (compare_semver_suffix_trans a b c)))
      h k

-- The comparison of any two versions, well-formed or not, in the other order is the negation; and a
-- version that is not greater than a second, which is not greater than a third, is not greater than the
-- third.
pub compare_semver-ordered :
    (a b c : Text)
    → (compare_semver b a ≡ negate (compare_semver a b))
      × (AtMost (compare_semver a b) → AtMost (compare_semver b c) → AtMost (compare_semver a c))
unfolding compare_semver
compare_semver-ordered a b c = (
  compare_semver-negate a b,
  λ h k. elim (Bool-cases (text_eq (normalize a) (normalize b))) [
    | inl same ↦ rw ((text_eq_iff (normalize a) (normalize b)).0 same) k
    | inr ab ↦ elim (Bool-cases (text_eq (normalize b) (normalize c))) [
      | inl same ↦ rw (← (text_eq_iff (normalize b) (normalize c)).0 same) h
      | inr bc ↦ elim (Bool-cases (text_eq (normalize a) (normalize c))) [
        | inl same ↦ rw same refl
        | inr ac ↦ rw ac (
            compare_parsed_trans (normalize a) (normalize b) (normalize c)
              (parse_semver (normalize a)) (parse_semver (normalize b)) (parse_semver (normalize c))
              (rw ab at h) (rw bc at k))
      ]
    ]
  ],
)

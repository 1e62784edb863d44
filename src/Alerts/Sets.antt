-- ===== src/Alerts/Sets.antt =====
-- The sets of ids that the alerts compare: two that `sameSet` finds equal have the same members.
use rssam.Common.{
  suc, ◌≡◌, refl, true, false, not, ◌&&◌, List, [], ◌∷◌, all, length, keep_if, ==_iff, Bool-cases,
  inl, inr, arith,
}
use rssam.Common.Maps.{Key, same}
use rssam.Alerts.{has, set_of, same_set}

module _ {ℓ} {K : Type ℓ} ⦃key : Key K⦄ where
  abbrev pub Distinct : List K → Type 0
  Distinct [] = Unit
  Distinct (k ∷ ks) = (has k ks ≡ false) × Distinct ks

  pub has-set_of : (k : K) (ks : List K) → has k (set_of ks) ≡ has k ks
  has-set_of k [] = refl
  has-set_of k (j ∷ ks) = ground (arith, has-set_of k ks, has-set_of j ks, key.same_iff j k)

  pub set_of-Distinct : (ks : List K) → Distinct (set_of ks)
  set_of-Distinct [] = tt
  set_of-Distinct (k ∷ ks) = elim (Bool-cases (has k (set_of ks))) [
    | inl old ↦ rw old (set_of-Distinct ks)
    | inr new ↦ rw new (new, set_of-Distinct ks)
  ]

  abbrev pub remove : K → List K → List K
  remove k ks = keep_if (λ j. not (same j k)) ks

  pub has-remove : (k x : K) (ks : List K) → has k (remove x ks) ≡ (not (same k x) && has k ks)
  has-remove k x [] = ground arith
  has-remove k x (j ∷ ks) =
      ground (arith, has-remove k x ks, key.same_iff j x, key.same_iff j k, key.same_iff k x)

  pub remove-Distinct : (x : K) (ks : List K) → Distinct ks → Distinct (remove x ks)
  remove-Distinct x [] h = tt
  remove-Distinct x (j ∷ ks) h = elim (Bool-cases (same j x)) [
    | inl gone ↦ rw gone (remove-Distinct x ks h.1)
    | inr stays ↦ rw stays (ground (arith, has-remove j x ks, h.0), remove-Distinct x ks h.1)
  ]

  length-remove_absent : (x : K) (ks : List K) → has x ks ≡ false → length (remove x ks) ≡ length ks
  length-remove_absent x [] h = refl
  length-remove_absent x (j ∷ ks) h = ground (arith, length-remove_absent x ks)

  length-remove :
      (x : K) (ks : List K) → Distinct ks → has x ks ≡ true → length ks ≡ suc (length (remove x ks))
  length-remove x [] d h = cc
  length-remove x (j ∷ ks) d h =
      ground (arith, length-remove x ks d.1, length-remove_absent x ks, key.same_iff j x, d.0)

  all-remove :
      (x : K) (a b : List K)
      → has x a ≡ false
      → all (λ k. has k b) a ≡ true
      → all (λ k. has k (remove x b)) a ≡ true
  all-remove x [] b h k = refl
  all-remove x (j ∷ a) b h k = ground (arith, all-remove x a b, has-remove j x b)

  -- As many distinct keys, all among the others, are all of the others.
  covers :
      (a b : List K) (k : K)
      → Distinct a
      → Distinct b
      → all (λ j. has j b) a ≡ true
      → length a ≡ length b
      → has k b ≡ true
      → has k a ≡ true
  covers [] [] k da db sub same_length h = h
  covers [] (y ∷ b) k da db sub same_length h = absurd (omega arith)
  covers (x ∷ a) b k da db sub same_length h = elim (Bool-cases (same k x)) [
    | inl here ↦ ground (arith, key.same_iff k x, key.same_iff x k)
    | inr there ↦ ground (
      arith,
      covers a (remove x b) k da.1 (remove-Distinct x b db) (all-remove x a b da.0 (ground arith))
          (ground (arith, length-remove x b db)) (ground (arith, has-remove k x b)),
    )
  ]

  has_of_all :
      (a b : List K) (k : K) → all (λ j. has j b) a ≡ true → has k a ≡ true → has k b ≡ true
  has_of_all [] b k sub h = cc
  has_of_all (j ∷ a) b k sub h = ground (arith, has_of_all a b k, key.same_iff j k)

  pub has-same_set :
      (a b : List K) (k : K) → Distinct a → Distinct b → same_set a b ≡ true → has k a ≡ has k b
  unfolding same_set
  has-same_set a b k da db h = elim (Bool-cases (has k a)) [
    | inl there ↦ ground (arith, has_of_all a b k)
    | inr absent ↦
        ground
          (arith, covers a b k da db (ground arith) (ground (arith, ==_iff (length a) (length b))))
  ]

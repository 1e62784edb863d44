-- ===== src/Common/Maps.antt =====
-- Go maps, as lists of keys and values; the order stands for the order of iteration, which Go leaves
-- open.
use Prim.Native.Nat.{ℕ}
use mathlib.Core.Path.{◌≡◌, refl}
use mathlib.Core.Logic.{◌↔◌, inl, inr}
use mathlib.Core.Bool.{Bool, true}
use mathlib.Core.Option.{Option, none, some}
use mathlib.Core.List.{List, [], ◌∷◌}
use native.Mathlib.Omega.{arith}
use rssam.Common.Tests.{if◌then◌else◌, ◌==◌, ==_iff, Bool-cases}
use rssam.Common.Int.{ℤ, eq_ℤ, eq_ℤ_iff}
use rssam.Common.Text.{Text, text_eq, text_eq_iff}

-- The keys of a map have a test of equality.
pub record Key {ℓ} (K : Type ℓ) : Type ℓ where
  pub same : K → K → Bool
  pub same_iff : (j k : K) → (same j k ≡ true) ↔ (j ≡ k)

instance abbrev pub id_key : Key ℕ
id_key = record { same = ◌==◌; same_iff = ==_iff }

instance abbrev pub int_key : Key ℤ
int_key = record { same = eq_ℤ; same_iff = eq_ℤ_iff }

instance abbrev pub text_key : Key Text
text_key = record { same = text_eq; same_iff = text_eq_iff }

abbrev pub same {ℓ} : {K : Type ℓ} ⦃key : Key K⦄ → K → K → Bool
same ⦃key⦄ = key.same

module _ {ℓ κ} {K : Type ℓ} {V : Type κ} ⦃key : Key K⦄ where
  -- `m[k]`, and whether it is there.
  unfoldable pub find : K → List (K × V) → Option V
  find k [] = none
  find k ((j, v) ∷ m) = if same j k then some v else find k m

  -- `delete(m, k)`
  unfoldable pub delete : K → List (K × V) → List (K × V)
  delete k [] = []
  delete k ((j, v) ∷ m) = let rest = delete k m in if same j k then rest else (j, v) ∷ rest

  -- `m[k] = v`
  unfoldable pub insert : K → V → List (K × V) → List (K × V)
  insert k v m = (k, v) ∷ delete k m

  -- A loop that deletes the entries that fail a test.
  unfoldable pub keep : (K → V → Bool) → List (K × V) → List (K × V)
  keep test [] = []
  keep test ((j, v) ∷ m) = let rest = keep test m in if test j v then (j, v) ∷ rest else rest

  pub find-delete :
      (k j : K) (m : List (K × V)) → find j (delete k m) ≡ (if same k j then none else find j m)
  unfolding find delete
  find-delete k j [] = ground arith
  find-delete k j ((i, v) ∷ m) =
      ground (arith, find-delete k j m, key.same_iff i k, key.same_iff i j, key.same_iff k j)

  pub find-insert :
      (k j : K) (v : V) (m : List (K × V))
      → find j (insert k v m) ≡ (if same k j then some v else find j m)
  unfolding find insert
  find-insert k j v m = ground (arith, find-delete k j m)

  -- Every key stands once.
  abbrev pub IsMap : List (K × V) → Type κ
  IsMap [] = Unit
  IsMap ((k, v) ∷ m) = (find k m ≡ none) × IsMap m

  pub delete-IsMap : (k : K) (m : List (K × V)) → IsMap m → IsMap (delete k m)
  unfolding delete
  delete-IsMap k [] h = tt
  delete-IsMap k ((j, v) ∷ m) h = elim (Bool-cases (same j k)) [
    | inl gone ↦ rw gone (delete-IsMap k m h.1)
    | inr stays ↦ rw stays (ground (arith, find-delete k j m, h.0), delete-IsMap k m h.1)
  ]

  pub insert-IsMap : (k : K) (v : V) (m : List (K × V)) → IsMap m → IsMap (insert k v m)
  unfolding insert
  insert-IsMap k v m h = (ground (arith, find-delete k k m, key.same_iff k k), delete-IsMap k m h)

  abbrev pub kept : (K → V → Bool) → K → Option V → Option V
  kept test k none = none
  kept test k (some v) = if test k v then some v else none

  pub find-keep :
      (test : K → V → Bool) (k : K) (m : List (K × V))
      → IsMap m
      → find k (keep test m) ≡ kept test k (find k m)
  unfolding find keep
  find-keep test k [] h = refl
  find-keep test k ((j, v) ∷ m) h = ground (arith, find-keep test k m h.1, key.same_iff j k, h.0)

  pub keep-IsMap : (test : K → V → Bool) (m : List (K × V)) → IsMap m → IsMap (keep test m)
  unfolding keep
  keep-IsMap test [] h = tt
  keep-IsMap test ((j, v) ∷ m) h = elim (Bool-cases (test j v)) [
    | inl stays ↦ rw stays (ground (arith, find-keep test j m h.1, h.0), keep-IsMap test m h.1)
    | inr gone ↦ rw gone (keep-IsMap test m h.1)
  ]

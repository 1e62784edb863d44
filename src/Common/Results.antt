-- ===== src/Common/Results.antt =====
-- Results of Go functions that return a value and an error.
use mathlib.Core.Path.{◌≡◌, refl}
use mathlib.Core.Bool.{Bool, true, false}
use mathlib.Core.List.{List, ◌∷◌}

pub data Result {ℓ κ} (E : Type ℓ) (A : Type κ) : Type (ℓ ⊔ κ) where
  err : E → Result E A
  ok : A → Result E A

module _ {ℓ κ μ} {E : Type ℓ} {A : Type κ} {B : Type μ} where
  infixl 5 ◌>>=◌
  -- An error ends the chain.
  abbrev pub ◌>>=◌ : Result E A → (A → Result E B) → Result E B
  err why >>= rest = err why
  ok value >>= rest = rest value

abbrev pub IsOk {ℓ κ} : {E : Type ℓ} {A : Type κ} → Result E A → Type (ℓ ⊔ κ)
IsOk {A} r = (a : A) × (r ≡ ok a)

abbrev pub is_ok {ℓ κ} : {E : Type ℓ} {A : Type κ} → Result E A → Bool
is_ok (ok a) = true
is_ok (err e) = false

module _ {ℓ κ} {E : Type ℓ} {A : Type κ} where
  -- One round of a loop that appends the value of a fallible step.
  abbrev pub collect : Result E A → Result E (List A) → Result E (List A)
  collect m ms = do a ← m; as' ← ms; ok (a ∷ as')

  pub collect-eq-ok :
      (m : Result E A) (ms : Result E (List A)) {out : List A}
      → collect m ms ≡ ok out
      → (a : A) × (as' : List A) × (m ≡ ok a) × (ms ≡ ok as') × (out ≡ a ∷ as')
  collect-eq-ok (ok a) (ok as') h = (a, as', refl, refl, cc)
  collect-eq-ok (ok a) (err e) h = cc
  collect-eq-ok (err e) ms h = cc

module _ {ℓ κ μ} {E : Type ℓ} {A : Type κ} {B : Type μ} (rest : A → Result E B) where
  -- A chain that succeeds has a first step that succeeds.
  pub >>=-eq-ok :
      (first : Result E A) {out : B}
      → (first >>= rest) ≡ ok out
      → (value : A) × (rest value ≡ ok out) × (first ≡ ok value)
  >>=-eq-ok (err why) h = cc
  >>=-eq-ok (ok value) h = (value, h, refl)

-- ===== src/Alerts/Alike.antt =====
-- States of the alerts that `diff` cannot tell apart, and sums over sets.
use rssam.Common.{
  ℕ, ◌+◌, ◌≡◌, refl, ◌∙◌, Bool, true, false, List, [], ◌∷◌, if◌then◌else◌, Bool-cases, inl, inr,
  arith,
}
use rssam.Common.Lists.{total}
use rssam.Common.Maps.{Key, same, id_key, text_key}
use rssam.Common.Text.{Text, text_eq_iff}
use rssam.Alerts.{has, SystemAlertState, same_bool, state_changed}
use rssam.Alerts.Sets.{Distinct, has-same_set, remove, has-remove, remove-Distinct}

-- Two states with the same members: what `diff` can see of them.
pub record Alike (s t : SystemAlertState) : Type 0 where
  pub paused : (k : ℕ) → has k s.paused ≡ has k t.paused
  pub silent : (k : ℕ) → has k s.silent ≡ has k t.silent
  pub webhooks : (k : ℕ) → has k s.webhooks ≡ has k t.webhooks
  pub layout : (k : Text) → has k s.layout ≡ has k t.layout
  pub release : s.release ≡ t.release
  pub backup : s.backup ≡ t.backup
  pub proxy : s.proxy ≡ t.proxy

pub record IsSets (s : SystemAlertState) : Type 0 where
  pub paused : Distinct s.paused
  pub silent : Distinct s.silent
  pub webhooks : Distinct s.webhooks
  pub layout : Distinct s.layout

pub Alike-refl : (s : SystemAlertState) → Alike s s
Alike-refl s = record {
  paused = λ k. refl;
  silent = λ k. refl;
  webhooks = λ k. refl;
  layout = λ k. refl;
  release = refl;
  backup = refl;
  proxy = refl;
}

pub Alike-trans : (s t u : SystemAlertState) → Alike s t → Alike t u → Alike s u
Alike-trans s t u h k = record {
  paused = λ i. h.paused i ∙ k.paused i;
  silent = λ i. h.silent i ∙ k.silent i;
  webhooks = λ i. h.webhooks i ∙ k.webhooks i;
  layout = λ i. h.layout i ∙ k.layout i;
  release = h.release ∙ k.release;
  backup = h.backup ∙ k.backup;
  proxy = h.proxy ∙ k.proxy;
}

same_bool_lem : (a b : Bool) → same_bool a b ≡ true → a ≡ b
same_bool_lem true true h = refl
same_bool_lem true false h = cc
same_bool_lem false true h = cc
same_bool_lem false false h = refl

-- States that `stateChanged` does not tell apart are alike.
pub Alike-of_unchanged :
    (s t : SystemAlertState) → IsSets s → IsSets t → state_changed s t ≡ false → Alike s t
unfolding state_changed
Alike-of_unchanged s t hs ht h = record {
  paused = λ k. has-same_set s.paused t.paused k hs.paused ht.paused (ground arith);
  silent = λ k. has-same_set s.silent t.silent k hs.silent ht.silent (ground arith);
  webhooks = λ k. has-same_set s.webhooks t.webhooks k hs.webhooks ht.webhooks (ground arith);
  layout = λ k. has-same_set s.layout t.layout k hs.layout ht.layout (ground arith);
  release = (text_eq_iff s.release t.release).0 (ground arith);
  backup = same_bool_lem s.backup t.backup (ground arith);
  proxy = same_bool_lem s.proxy t.proxy (ground arith);
}

module _ {ℓ} {K : Type ℓ} ⦃key : Key K⦄ where
  total-remove :
      (f : K → ℕ) (x : K) (ks : List K)
      → Distinct ks
      → total f ks ≡ (if has x ks then f x else 0) + total f (remove x ks)
  total-remove f x [] h = omega arith
  total-remove f x (j ∷ ks) h = elim (Bool-cases (same j x)) [
    | inl here ↦ ground (arith, total-remove f x ks h.1, key.same_iff j x, h.0)
    | inr there ↦ ground (arith, total-remove f x ks h.1)
  ]

  -- Distinct keys with the same members have the same sum.
  pub total-alike :
      (f : K → ℕ) (a b : List K)
      → Distinct a
      → Distinct b
      → ((k : K) → has k a ≡ has k b)
      → total f a ≡ total f b
  total-alike f [] [] da db h = refl
  total-alike f [] (y ∷ b) da db h = absurd (ground (arith, h y, key.same_iff y y))
  total-alike f (x ∷ a) b da db h = ground (
    arith,
    total-remove f x b db,
    h x,
    key.same_iff x x,
    total-alike f a (remove x b) da.1 (remove-Distinct x b db)
        (λ k. ground (arith, has-remove k x b, h k, key.same_iff x k, key.same_iff k x, da.0)),
  )

-- ===== src/Webhook/OnSuccess/Merge.antt =====
-- The strongest action wins, in whatever order the webhooks are read.
use Prim.Native.Nat.{max}
use rssam.Common.{ℕ, ◌≡◌, false, Option, none, some, List, [], ◌∷◌, arith}
use rssam.Common.Text.{Text}
use rssam.Webhook.OnSuccess.{
  OnSuccess, none_action, hash, delete, mark_read, Seen, note, note_all, strongest,
  normalize_webhook_on_success, merge_on_success_actions,
}

-- delete > hash > mark_read > none; a text that names no action counts as none.
abbrev pub strength : OnSuccess → ℕ
strength none_action = 0
strength mark_read = 1
strength hash = 2
strength delete = 3

abbrev pub strength_of : Option OnSuccess → ℕ
strength_of none = 0
strength_of (some a) = strength a

abbrev pub max_strength : List Text → ℕ
max_strength [] = 0
max_strength (raw ∷ raws) = max (strength_of (normalize_webhook_on_success raw)) (max_strength raws)

strength-note :
    (o : Option OnSuccess) (seen : Seen)
    → strength (strongest (note o seen)) ≡ max (strength_of o) (strength (strongest seen))
unfolding note
strength-note none seen = ground arith
strength-note (some none_action) seen = ground arith
strength-note (some hash) seen = ground arith
strength-note (some delete) seen = ground arith
strength-note (some mark_read) seen = ground arith

strength-note_all :
    (seen : Seen) (raws : List Text)
    → strength (strongest (note_all seen raws))
      ≡ max (strength (strongest seen)) (max_strength raws)
unfolding note_all
strength-note_all seen [] = omega arith
strength-note_all seen (raw ∷ raws) = omega (
  arith,
  strength-note_all (note (normalize_webhook_on_success raw) seen) raws,
  strength-note (normalize_webhook_on_success raw) seen,
)

-- The merged action has the greatest strength among the given ones, where delete is stronger than
-- hash, hash than mark_read, mark_read than none, and a text that names no action counts as none.
pub strength-merge :
    (actions : List Text) → strength (merge_on_success_actions actions) ≡ max_strength actions
unfolding merge_on_success_actions
strength-merge actions = omega (
  arith,
  strength-note_all (record { has_delete = false; has_hash = false; has_read = false }) actions,
)

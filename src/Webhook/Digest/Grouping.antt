-- ===== src/Webhook/Digest/Grouping.antt =====
-- Each row that is claimed travels in one message.
use rssam.Common.{
  ℕ, zero, suc, ◌+◌, ◌≡◌, refl, sym, ◌∙◌, Bool, true, ◌&&◌, Option, none, some, List, [], ◌∷◌, ◌++◌,
  if◌then◌else◌, ◌==◌, ==_iff, length, count, count-append, arith, All, Bool-cases, Option-cases,
  inl, inr,
}
use rssam.Common.Maps.{id_key, find, insert, find-insert, delete}
use rssam.Webhook.Delivery.{WebhookLog}
use rssam.Webhook.Digest.{is_digest, add_peers, update_at, Groups, add_row, first_loop}

-- The row that carries the digest of a webhook.
abbrev pub carries : ℕ → WebhookLog → Bool
carries webhook l = is_digest l && l.webhook_id == webhook

abbrev pub next_position : Option ℕ → Option ℕ
next_position none = none
next_position (some i) = some (suc i)

abbrev pub position : ℕ → List WebhookLog → Option ℕ
position webhook [] = none
position webhook (l ∷ out) =
    let rest = position webhook out in if carries webhook l then some 0 else next_position rest

-- The ids that leave with a row: `l.Peers` of a digest, else its own.
abbrev pub ids_of : WebhookLog → List ℕ
ids_of l = if is_digest l then l.peers else l.id ∷ []

-- In how many messages an id leaves.
abbrev pub travels : ℕ → List WebhookLog → ℕ
travels n [] = 0
travels n (l ∷ out) = count n (ids_of l) + travels n out

abbrev pub row_ids : List WebhookLog → List ℕ
row_ids [] = []
row_ids (l ∷ logs) = l.id ∷ row_ids logs

-- The index of each carrier is kept in the map.
abbrev pub Indexed : Groups → Type 0
Indexed (out, carriers) = (webhook : ℕ) → find webhook carriers ≡ position webhook out

travels-append :
    (n : ℕ) (xs ys : List WebhookLog) → travels n (xs ++ ys) ≡ travels n xs + travels n ys
travels-append n [] ys = omega arith
travels-append n (l ∷ xs) ys = omega (arith, travels-append n xs ys)

carried_ids :
    (n : ℕ) (ids : List ℕ) (l : WebhookLog)
    → is_digest l ≡ true
    → count n (ids_of (add_peers ids l)) ≡ count n (ids_of l) + count n ids
carried_ids n ids l h = ground (arith, count-append n l.peers ids)

travels-update_at :
    (n : ℕ) (ids : List ℕ) (webhook i : ℕ) (out : List WebhookLog)
    → position webhook out ≡ some i
    → travels n (update_at (add_peers ids) i out) ≡ travels n out + count n ids
travels-update_at n ids webhook i [] h = cc
travels-update_at n ids webhook zero (l ∷ out) h = ground (arith, carried_ids n ids l)
travels-update_at n ids webhook (suc i) (l ∷ out) h =
    ground (arith, travels-update_at n ids webhook i out)

position-update_at :
    (webhook i j : ℕ) (ids : List ℕ) (out : List WebhookLog)
    → position webhook (update_at (add_peers ids) i out) ≡ position webhook out
position-update_at webhook i j ids [] = refl
position-update_at webhook zero j ids (l ∷ out) = refl
position-update_at webhook (suc i) j ids (l ∷ out) =
    ground (arith, position-update_at webhook i j ids out)

abbrev pub or_last : Option ℕ → Bool → ℕ → Option ℕ
or_last (some i) last n = some i
or_last none last n = if last then some n else none

position-append :
    (webhook : ℕ) (out : List WebhookLog) (l : WebhookLog)
    → position webhook (out ++ l ∷ [])
      ≡ or_last (position webhook out) (carries webhook l) (length out)
position-append webhook [] l = ground arith
position-append webhook (k ∷ out) l = ground (arith, position-append webhook out l)

-- The entries of the map are positions.
abbrev pub Entries : Groups → Type 0
Entries (out, carriers) = All (λ e. position e.0 out ≡ some e.1) carriers

All-delete : (P : ℕ × ℕ → Type 0) (k : ℕ) (m : List (ℕ × ℕ)) → All P m → All P (delete k m)
unfolding delete
All-delete P k [] h = tt
All-delete P k ((j, v) ∷ m) h = ground (arith, All-delete P k m h.1)

Entries-append :
    (out : List WebhookLog) (l : WebhookLog) (carriers : List (ℕ × ℕ))
    → Entries (out, carriers)
    → Entries (out ++ l ∷ [], carriers)
Entries-append out l [] h = tt
Entries-append out l ((w, i) ∷ carriers) h =
    (rw (position-append w out l, h.0) refl, Entries-append out l carriers h.1)

Entries-update_at :
    (i : ℕ) (ids : List ℕ) (out : List WebhookLog) (carriers : List (ℕ × ℕ))
    → Entries (out, carriers)
    → Entries (update_at (add_peers ids) i out, carriers)
Entries-update_at i ids out [] h = tt
Entries-update_at i ids out ((w, j) ∷ carriers) h =
    (position-update_at w i 0 ids out ∙ h.0, Entries-update_at i ids out carriers h.1)

-- What a round of the first loop keeps.
abbrev pub IsGrouped : Groups → Type 0
IsGrouped g = Indexed g × Entries g

-- At the start nothing is grouped.
pub IsGrouped-start : IsGrouped ([], [])
unfolding find
IsGrouped-start = ((λ w. refl), tt)

at_last :
    (out : List WebhookLog) (l : WebhookLog)
    → is_digest l ≡ true
    → position l.webhook_id out ≡ none
    → position l.webhook_id (out ++ record l { peers = l.id ∷ [] } ∷ []) ≡ some (length out)
at_last out l digest new = ground (
  arith,
  position-append l.webhook_id out (record l { peers = l.id ∷ [] }),
  ==_iff l.webhook_id l.webhook_id,
)

pub add_row-IsGrouped : (l : WebhookLog) (g : Groups) → IsGrouped g → IsGrouped (add_row l g)
unfolding insert
add_row-IsGrouped l (out, carriers) h = elim (Bool-cases (is_digest l)) [
  | inr plain ↦
      rw plain
        (λ w. ground (arith, h.0 w, position-append w out l), Entries-append out l carriers h.1)
  | inl digest ↦ elim (Option-cases (find l.webhook_id carriers)) [
    | inl new ↦
        rw (digest, new)
          (
            (λ w. ground (
              arith,
              h.0 w,
              position-append w out (record l { peers = l.id ∷ [] }),
              find-insert l.webhook_id w (length out) carriers,
              ==_iff l.webhook_id w,
            )),
            (
              at_last out l digest (sym (h.0 l.webhook_id) ∙ new),
              All-delete _ l.webhook_id carriers (Entries-append out _ carriers h.1),
            ),
          )
    | inr (i, there) ↦
        rw (digest, there)
          (
            (λ w. h.0 w ∙ sym (position-update_at w i 0 (l.id ∷ []) out)),
            Entries-update_at i (l.id ∷ []) out carriers h.1,
          )
  ]
]

travels-add_row :
    (n : ℕ) (l : WebhookLog) (g : Groups)
    → IsGrouped g
    → travels n (add_row l g).0 ≡ travels n g.0 + count n (l.id ∷ [])
travels-add_row n l (out, carriers) h = elim (Bool-cases (is_digest l)) [
  | inr plain ↦ rw plain (ground (arith, travels-append n out (l ∷ [])))
  | inl digest ↦ elim (Option-cases (find l.webhook_id carriers)) [
    | inl new ↦
        rw (digest, new)
          (ground (
            arith,
            travels-append n out (record l { peers = l.id ∷ [] } ∷ []),
            count-append n (l.id ∷ []) [],
          ))
    | inr (i, there) ↦
        rw (digest, there)
          (travels-update_at n (l.id ∷ []) l.webhook_id i out (sym (h.0 l.webhook_id) ∙ there))
  ]
]

-- After the first loop every claimed row travels as often as it was claimed.
pub travels-first_loop :
    (n : ℕ) (logs : List WebhookLog) (g : Groups)
    → IsGrouped g
    → IsGrouped (first_loop logs g)
      × (travels n (first_loop logs g).0 ≡ travels n g.0 + count n (row_ids logs))
unfolding first_loop
travels-first_loop n [] g h = (h, omega arith)
travels-first_loop n (l ∷ logs) g h =
    let (grouped, total) = travels-first_loop n logs (add_row l g) (add_row-IsGrouped l g h) in
    (grouped, ground (arith, total, travels-add_row n l g h))

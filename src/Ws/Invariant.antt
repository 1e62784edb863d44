-- ===== src/Ws/Invariant.antt =====
-- What every action of the goroutines keeps of the hub: a connected client is not gone, only a gone
-- client has a closed channel, and no channel holds more than its buffer.
use mathlib.Core.Path.{subst}
use rssam.Common.{
  ℕ, ◌≤◌, ◌≡◌, refl, ap, ◌∙◌, Bool, true, false, not, ◌&&◌, ◌||◌, List, [], ◌∷◌, ◌++◌, null, length,
  length-append, ltb, ◌==◌, ==_iff, keep_if, if◌then◌else◌, All, All-append, Bool-cases, inl, inr,
  arith,
}
use rssam.Common.Int.{ℤ, pos, leb_ℤ, eq_ℤ}
use rssam.Common.Text.{Text}
use rssam.Ws.{
  Publish, Hub, is_connected, register, unregister, close, is_subscribed, queued, offer, try_send,
  distinct, publish_to_user, with_slow, visit, visited, set_subscriptions, taken, Step, registers,
  unregisters, closes, publishes, visits, unlocks, evicts, answers, writes, subscribes,
}

abbrev pub IsPresent : List ℕ → ℕ → Type 0
IsPresent clients c = is_connected c clients ≡ true

-- What a call under the read lock has yet to visit is connected.
abbrev pub Readers : List ℕ → List Publish → Type 0
Readers clients = All (λ p. All (IsPresent clients) p.todo)

pub record Inv (h : Hub) : Type 0 where
  pub calm : h.panicked ≡ false
  pub shut_gone : (c : ℕ) → (h.at c).shut ≡ (h.at c).gone
  pub connected : (c : ℕ) → is_connected c h.clients ≡ true → (h.at c).gone ≡ false
  pub readers : Readers h.clients h.reading
  pub within : (c : ℕ) → length (h.at c).send ≤ h.client_buffer

is_connected_self : (clients : List ℕ) → All (IsPresent clients) clients
is_connected_self clients = present_of clients (λ c here. here)
  where
    present_of :
        (rest : List ℕ)
        → ((c : ℕ) → is_connected c rest ≡ true → is_connected c clients ≡ true)
        → All (IsPresent clients) rest
    present_of [] sub = tt
    present_of (c ∷ rest) sub =
        (sub c (ground (arith, ==_iff c c)), present_of rest (λ d h. sub d (ground arith)))

is_connected-delete :
    (c d : ℕ) (clients : List ℕ)
    → is_connected d (keep_if (λ e. not (e == c)) clients)
      ≡ (not (d == c) && is_connected d clients)
is_connected-delete c d [] = ground arith
is_connected-delete c d (e ∷ clients) =
    ground (arith, is_connected-delete c d clients, ==_iff e c, ==_iff e d, ==_iff d c)

All-middle {ℓ κ} :
    {A : Type ℓ} (P : A → Type κ) (before : List A) (x : A) (after : List A)
    → All P (before ++ x ∷ after)
    → All P before × P x × All P after
All-middle P [] x after h = (tt, h.0, h.1)
All-middle P (y ∷ before) x after h =
    let (front, it, back) = All-middle P before x after h.1 in ((h.0, front), it, back)

register-Inv : (c : ℕ) (h : Hub) → h.reading ≡ [] → Inv h → Inv (register c h)
unfolding register
register-Inv c h free inv = elim (Bool-cases ((h.at c).gone || is_connected c h.clients)) [
  | inl refused ↦ rw refused inv
  | inr joins ↦ rw joins (record {
    calm = inv.calm;
    shut_gone = inv.shut_gone;
    connected = λ d there. ground (arith, inv.connected d, ==_iff c d);
    readers = rw free tt;
    within = inv.within;
  })
]

unregister-Inv : (c : ℕ) (h : Hub) → h.reading ≡ [] → Inv h → Inv (unregister c h)
unfolding unregister
unregister-Inv c h free inv = elim (Bool-cases (is_connected c h.clients)) [
  | inl there ↦ rw there (record {
    calm = ground (arith, inv.calm, inv.shut_gone c, inv.connected c);
    shut_gone = λ d. ground (arith, inv.shut_gone d, ==_iff d c);
    connected =
        λ d stays. ground (arith, is_connected-delete c d h.clients, inv.connected d, ==_iff d c);
    readers = rw free tt;
    within = λ d. ground (arith, inv.within d, inv.within c, ==_iff d c);
  })
  | inr absent ↦ rw absent inv
]

close-Inv : (c : ℕ) (h : Hub) → Inv h → Inv (close c h)
unfolding close
close-Inv c h inv = record {
  calm = inv.calm;
  shut_gone = λ d. ground (arith, inv.shut_gone d, ==_iff d c);
  connected = λ d there. ground (arith, inv.connected d, ==_iff d c);
  readers = inv.readers;
  within = λ d. ground (arith, inv.within d, ==_iff d c);
}

set_subscriptions-Inv :
    (c : ℕ) (channels : List Text) (h : Hub) → Inv h → Inv (set_subscriptions c channels h)
set_subscriptions-Inv c channels h inv = record {
  calm = inv.calm;
  shut_gone = λ d. ground (arith, inv.shut_gone d, ==_iff d c);
  connected = λ d there. ground (arith, inv.connected d, ==_iff d c);
  readers = inv.readers;
  within = λ d. ground (arith, inv.within d, ==_iff d c);
}

-- A channel that takes at most the buffer leaves the rest as it is.
send-Inv :
    (c : ℕ) (waiting : List Text) (h : Hub)
    → length waiting ≤ h.client_buffer
    → Inv h
    → Inv (taken c waiting h)
send-Inv c waiting h fits inv = record {
  calm = inv.calm;
  shut_gone = λ d. ground (arith, inv.shut_gone d, ==_iff d c);
  connected = λ d there. ground (arith, inv.connected d, ==_iff d c);
  readers = inv.readers;
  within = λ d. ground (arith, inv.within d, ==_iff d c);
}

offer_room :
    (c : ℕ) (payload : Text) (h : Hub)
    → (h.at c).shut ≡ false
    → (offer c payload h).0
      ≡ (if ltb (length (h.at c).send) h.client_buffer then queued c payload h else h)
unfolding offer
offer_room c payload h open_channel = simp open_channel (ground arith)

-- A send to a client that is not gone does not panic, and takes a place in its channel.
offer-Inv :
    (c : ℕ) (payload : Text) (h : Hub) → (h.at c).gone ≡ false → Inv h → Inv (offer c payload h).0
offer-Inv c payload h there inv = elim (Bool-cases (ltb (length (h.at c).send) h.client_buffer)) [
  | inl room ↦
      rw (offer_room c payload h (inv.shut_gone c ∙ there), room)
        (send-Inv c ((h.at c).send ++ payload ∷ []) h
          (ground (arith, length-append (h.at c).send (payload ∷ []))) inv)
  | inr full ↦ rw (offer_room c payload h (inv.shut_gone c ∙ there), full) inv
]

try_send-Inv : (c : ℕ) (payload : Text) (h : Hub) → Inv h → Inv (try_send c payload h)
unfolding try_send
try_send-Inv c payload h inv = elim (Bool-cases (h.at c).gone) [
  | inl left ↦ rw left inv
  | inr there ↦ rw there (offer-Inv c payload h there inv)
]

with_slow-first : (c : ℕ) (slow : List ℕ) (r : Hub × Bool) → (with_slow c slow r).0 ≡ r.0
with_slow-first c slow (h, true) = refl
with_slow-first c slow (h, false) = refl

visit-Inv : (p : Publish) (c : ℕ) (h : Hub) → (h.at c).gone ≡ false → Inv h → Inv (visit p c h).0
unfolding visit
visit-Inv p c h there inv = elim (Bool-cases (eq_ℤ (h.at c).user_id p.user_id)) [
  | inl own ↦ elim (Bool-cases (is_subscribed p.channels (h.at c))) [
    | inl wanted ↦
        rw (own, wanted, with_slow-first c p.slow (offer c p.payload h))
          (offer-Inv c p.payload h there inv)
    | inr unwanted ↦ rw (own, unwanted) inv
  ]
  | inr other ↦ rw other inv
]

clients-visit : (p : Publish) (c : ℕ) (h : Hub) → (visit p c h).0.clients ≡ h.clients
unfolding visit offer
clients-visit p c h = ground arith

reading-Inv :
    (h : Hub) (readers : List Publish)
    → Readers h.clients readers
    → Inv h
    → Inv (record h { reading = readers })
reading-Inv h readers present inv = record {
  calm = inv.calm;
  shut_gone = inv.shut_gone;
  connected = inv.connected;
  readers = present;
  within = inv.within;
}

evicting-Inv : (h : Hub) (slow : List (List ℕ)) → Inv h → Inv (record h { evicting = slow })
evicting-Inv h slow inv = record {
  calm = inv.calm;
  shut_gone = inv.shut_gone;
  connected = inv.connected;
  readers = inv.readers;
  within = inv.within;
}

publish_to_user-Inv :
    (user_id : ℤ) (channels : List Text) (payload : Text) (h : Hub)
    → Inv h
    → Inv (publish_to_user user_id channels payload h)
unfolding publish_to_user
publish_to_user-Inv user_id channels payload h inv =
    elim (Bool-cases (leb_ℤ user_id (pos 0) || null (distinct channels))) [
      | inl nothing ↦ rw nothing inv
      | inr starts ↦ rw starts (reading-Inv h _ (is_connected_self h.clients, inv.readers) inv)
    ]

visited-Inv :
    (before : List Publish) (p : Publish) (after : List Publish) (c : ℕ) (rest : List ℕ) (h : Hub)
    → h.reading ≡ before ++ p ∷ after
    → p.todo ≡ c ∷ rest
    → Inv h
    → Inv (visited before p rest after (visit p c h))
visited-Inv before p after c rest h reading todo inv =
    let readers : Readers h.clients (before ++ p ∷ after) = rw (← reading) inv.readers in
    let (front, own, back) = All-middle _ before p after readers in
    let (first, others) : All (IsPresent h.clients) (c ∷ rest) =
      subst (λ clients. All (IsPresent h.clients) clients) todo own in
    reading-Inv (visit p c h).0 _
      (rw (clients-visit p c h) (All-append _ before _ front (others, back)))
      (visit-Inv p c h (inv.connected c first) inv)

unlocks-Inv :
    (before : List Publish) (p : Publish) (after : List Publish) (h : Hub)
    → h.reading ≡ before ++ p ∷ after
    → Inv h
    → Inv (record h { reading = before ++ after; evicting = p.slow ∷ h.evicting })
unlocks-Inv before p after h reading inv =
    let readers : Readers h.clients (before ++ p ∷ after) = rw (← reading) inv.readers in
    let (front, own, back) = All-middle _ before p after readers in
    evicting-Inv (record h { reading = before ++ after }) (p.slow ∷ h.evicting)
      (reading-Inv h _ (All-append _ before after front back) inv)

reading-close : (c : ℕ) (h : Hub) → (close c h).reading ≡ h.reading
unfolding close
reading-close c h = refl

pub Step-Inv : {h t : Hub} → Step h t → Inv h → Inv t
Step-Inv {h} (registers c free) inv = register-Inv c h free inv
Step-Inv {h} (unregisters c free) inv = unregister-Inv c h free inv
Step-Inv {h} (closes c) inv = close-Inv c h inv
Step-Inv {h} (publishes user_id channels payload) inv =
    publish_to_user-Inv user_id channels payload h inv
Step-Inv {h} (visits before p after c rest reading todo) inv =
    visited-Inv before p after c rest h reading todo inv
Step-Inv {h} (unlocks before p after reading done) inv = unlocks-Inv before p after h reading inv
Step-Inv {h} (evicts before c slow after free evicting) inv =
    evicting-Inv (unregister c (close c h)) _
      (unregister-Inv c (close c h) (reading-close c h ∙ free) (close-Inv c h inv))
Step-Inv {h} (answers c payload) inv = try_send-Inv c payload h inv
Step-Inv {h} (writes c payload rest waiting) inv =
    send-Inv c rest h (omega (arith, ap length waiting, inv.within c)) inv
Step-Inv {h} (subscribes c channels) inv = set_subscriptions-Inv c channels h inv

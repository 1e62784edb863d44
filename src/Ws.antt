-- ===== src/Ws.antt =====
-- internal/ws/hub.go and the client of internal/ws/client.go: who is connected, and how an event
-- reaches the connections. A client is known by its address, since the hub, the pumps of the client
-- and a publisher all hold a pointer to it.
pub mod Invariant
pub mod Safety
pub mod Isolation
pub mod Channels
pub mod Tests
use rssam.Common.{
  ℕ, suc, ◌≡◌, Bool, true, false, not, ◌&&◌, ◌||◌, List, [], ◌∷◌, ◌++◌, null, any, length, ltb,
  ◌==◌, keep_if, if◌then◌else◌,
}
use rssam.Common.Int.{ℤ, pos, leb_ℤ, eq_ℤ}
use rssam.Common.Text.{Text, text_eq, trim_space}

-- `shut` says that the channel `send` is closed; `send` has the payloads that wait in it.
pub record Client : Type 0 where
  pub user_id : ℤ
  pub send : List Text
  pub shut : Bool
  pub gone : Bool
  pub closed : Bool
  pub subscriptions : List Text

-- A call of `PublishToUser` inside its loop, under the read lock: the clients that it has yet to
-- visit and those that it found slow.
pub record Publish : Type 0 where
  pub user_id : ℤ
  pub channels : List Text
  pub payload : Text
  pub todo : List ℕ
  pub slow : List ℕ

-- The hub, the clients at their addresses, and the calls under way: `reading` hold the read lock,
-- `evicting` have the slow clients that they are about to unregister. `panicked` says that a send on a
-- closed channel, or a second close, has ended the program.
pub record Hub : Type 0 where
  pub clients : List ℕ
  pub client_buffer : ℕ
  pub at : ℕ → Client
  pub reading : List Publish
  pub evicting : List (List ℕ)
  pub panicked : Bool

abbrev pub is_connected : ℕ → List ℕ → Bool
is_connected c clients = any (λ d. d == c) clients

abbrev pub has_channel : Text → List Text → Bool
has_channel channel channels = any (λ other. text_eq other channel) channels

abbrev pub update : ℕ → Client → (ℕ → Client) → ℕ → Client
update c client clients d = if d == c then client else clients d

unfoldable pub register : ℕ → Hub → Hub
register c h =
    if (h.at c).gone || is_connected c h.clients then h else record h { clients = c ∷ h.clients }

-- `delete`, the mark and `close`, which panics on a closed channel.
unfoldable pub unregister : ℕ → Hub → Hub
unregister c h = if not (is_connected c h.clients) then h else record h {
  clients = keep_if (λ d. not (d == c)) h.clients;
  at = update c (record (h.at c) { gone = true; shut = true }) h.at;
  panicked = h.panicked || (h.at c).shut;
}

-- `Close` of a client; the connection is closed with it.
unfoldable pub close : ℕ → Hub → Hub
close c h = record h { at = update c (record (h.at c) { closed = true }) h.at }

unfoldable pub is_subscribed : List Text → Client → Bool
is_subscribed channels client =
    if null client.subscriptions
    then false
    else any (λ channel. has_channel channel client.subscriptions) channels

-- `select` with a send and a default: what becomes of the hub, or that the channel is full.
abbrev pub queued : ℕ → Text → Hub → Hub
queued c payload h = record h {
  at = update c (record (h.at c) { send = (h.at c).send ++ payload ∷ [] }) h.at;
}

unfoldable pub offer : ℕ → Text → Hub → Hub × Bool
offer c payload h =
    if (h.at c).shut
    then (record h { panicked = true }, true)
    else if ltb (length (h.at c).send) h.client_buffer
    then (queued c payload h, true)
    else (h, false)

-- `trySend`
unfoldable pub try_send : ℕ → Text → Hub → Hub
try_send c payload h = if (h.at c).gone then h else (offer c payload h).0

-- The distinct trimmed channels of an event; their order does not matter.
unfoldable pub distinct : List Text → List Text
distinct [] = []
distinct (channel ∷ channels) =
    let rest = distinct channels in
    let name = trim_space channel in
    if null name || has_channel name rest then rest else name ∷ rest

-- `PublishToUser` up to its loop; `payload` is the event as JSON.
unfoldable pub publish_to_user : ℤ → List Text → Text → Hub → Hub
publish_to_user user_id channels payload h =
    if leb_ℤ user_id (pos 0) || null (distinct channels) then h else record h {
      reading =
          record {
            user_id = user_id;
            channels = distinct channels;
            payload = payload;
            todo = h.clients;
            slow = [];
          }
          ∷ h.reading;
    }

-- One round of the loop: the hub after it, and the slow clients.
abbrev pub with_slow : ℕ → List ℕ → Hub × Bool → Hub × List ℕ
with_slow c slow (h, true) = (h, slow)
with_slow c slow (h, false) = (h, slow ++ c ∷ [])

unfoldable pub visit : Publish → ℕ → Hub → Hub × List ℕ
visit p c h =
    if not (eq_ℤ (h.at c).user_id p.user_id)
    then (h, p.slow)
    else if not (is_subscribed p.channels (h.at c))
    then (h, p.slow)
    else with_slow c p.slow (offer c p.payload h)

abbrev pub visited : List Publish → Publish → List ℕ → List Publish → Hub × List ℕ → Hub
visited before p todo after r = record r.0 {
  reading = before ++ record p { todo = todo; slow = r.1 } ∷ after;
}

abbrev pub set_subscriptions : ℕ → List Text → Hub → Hub
set_subscriptions c channels h = record h {
  at = update c (record (h.at c) { subscriptions = channels }) h.at;
}

abbrev pub taken : ℕ → List Text → Hub → Hub
taken c rest h = record h { at = update c (record (h.at c) { send = rest }) h.at }

-- What the goroutines do, one action at a time. The write lock is free while no call holds the read
-- lock; the other actions need no lock of the hub, or a read lock for themselves alone.
pub data Step (h : Hub) : Hub → Type 0 where
  registers : (c : ℕ) → h.reading ≡ [] → Step h (register c h)
  unregisters : (c : ℕ) → h.reading ≡ [] → Step h (unregister c h)
  closes : (c : ℕ) → Step h (close c h)
  publishes :
      (user_id : ℤ) (channels : List Text) (payload : Text)
      → Step h (publish_to_user user_id channels payload h)
  visits :
      (before : List Publish) (p : Publish) (after : List Publish) (c : ℕ) (rest : List ℕ)
      → h.reading ≡ before ++ p ∷ after
      → p.todo ≡ c ∷ rest
      → Step h (visited before p rest after (visit p c h))
  unlocks :
      (before : List Publish) (p : Publish) (after : List Publish)
      → h.reading ≡ before ++ p ∷ after
      → p.todo ≡ []
      → Step h (record h { reading = before ++ after; evicting = p.slow ∷ h.evicting })
  evicts :
      (before : List (List ℕ)) (c : ℕ) (slow : List ℕ) (after : List (List ℕ))
      → h.reading ≡ []
      → h.evicting ≡ before ++ (c ∷ slow) ∷ after
      → Step h (record (unregister c (close c h)) { evicting = before ++ slow ∷ after })
  answers : (c : ℕ) (payload : Text) → Step h (try_send c payload h)
  writes :
      (c : ℕ) (payload : Text) (rest : List Text)
      → (h.at c).send ≡ payload ∷ rest
      → Step h (taken c rest h)
  subscribes : (c : ℕ) (channels : List Text) → Step h (set_subscriptions c channels h)

pub data Reach (h : Hub) : Hub → Type 0 where
  here : Reach h h
  next : {t u : Hub} → Reach h t → Step t u → Reach h u

-- A hub without clients; the clients are those that `NewUserClient` will make, at their addresses.
pub record IsNew (h : Hub) : Type 0 where
  pub no_clients : h.clients ≡ []
  pub no_readers : h.reading ≡ []
  pub calm : h.panicked ≡ false
  pub empty : (c : ℕ) → (h.at c).send ≡ []
  pub open_channel : (c : ℕ) → (h.at c).shut ≡ false
  pub present : (c : ℕ) → (h.at c).gone ≡ false

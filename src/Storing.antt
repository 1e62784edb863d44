-- ===== src/Storing.antt =====
-- What a poll stores: `processEntriesFiltered` of internal/service/feed_refresher_dedup.go. The answers
-- of the store, of the subscribers' filters and of the filter engine are parameters; the engine gives
-- the ids of the filters that match, none on an error.
pub mod Actions
pub mod Conserved
pub mod Relay
pub mod Tests
use rssam.Common.{
  ℕ, Bool, true, false, not, ◌&&◌, ◌||◌, Option, none, some, List, [], ◌∷◌, ◌++◌, if◌then◌else◌,
  null, any, map, length,
}
use rssam.Common.Results.{Result, err, ok, ◌>>=◌, collect}
use rssam.Common.Text.{Text, codes, text_eq, trim_space, to_lower}

-- `CreateEntryParams`: the hash, and the text that is sanitized.
pub record Item : Type 0 where
  pub hash : Text
  pub title : Text
  pub content : Text

pub data StoreMode : Type 0 where
  full : StoreMode
  filtered : StoreMode
  relay : StoreMode

abbrev pub is_full : StoreMode → Bool
is_full full = true
is_full filtered = false
is_full relay = false

abbrev or_full : Option StoreMode → StoreMode
or_full none = full
or_full (some mode) = mode

-- `storeMode`: the mode of the feed, full where it does not normalise, raised by that of the instance.
unfoldable pub store_mode : Text → Option StoreMode → StoreMode
store_mode instance_mode feed_mode =
    let mode = or_full feed_mode in
    let s = to_lower (trim_space instance_mode) in
    if text_eq s (codes "relay")
    then relay
    else if (text_eq s (codes "dedup_only") || text_eq s (codes "filtered")) && is_full mode
    then filtered
    else mode

-- The hashes that are asked about.
unfoldable pub asked_hashes : List Item → List Text
asked_hashes [] = []
asked_hashes (p ∷ items) =
    let rest = asked_hashes items in if null (trim_space p.hash) then rest else p.hash ∷ rest

abbrev pub is_known : List Text → Text → Bool
is_known known hash = any (λ h. text_eq h hash) known

-- The first loop, for the set `known`.
unfoldable pub fresh_items : (Text → Text) → List Text → List Item → List Item
fresh_items sanitize known [] = []
fresh_items sanitize known (p ∷ items) =
    let seen = fresh_items sanitize known items in
    let unseen = fresh_items sanitize (p.hash ∷ known) items in
    if null p.hash
    then seen
    else if is_known known p.hash
    then seen
    else record p { content = sanitize p.content } ∷ unseen

module _ {S : Type 0} {F : Type 0} (list_filters : S → Option (List F))
    (match_entry : List F → Item → Option (List ℕ)) where
  -- The enabled filters of each subscriber that has some; an error ends the poll.
  unfoldable pub subscriber_filters : List S → Option (List (List F))
  subscriber_filters [] = some []
  subscriber_filters (sub ∷ subs) =
      let rest = subscriber_filters subs in
      elim (list_filters sub) [
        | none ↦ none
        | some filters ↦ elim rest [
          | none ↦ none
          | some more ↦ some (if null filters then more else filters ∷ more)
        ]
      ]

  abbrev pub has_matches : Option (List ℕ) → Bool
  has_matches none = false
  has_matches (some ids) = not (null ids)

  abbrev pub is_wanted : List (List F) → Item → Bool
  is_wanted per_sub p = any (λ filters. has_matches (match_entry filters p)) per_sub

  -- The loop that parts what is stored from what only leaves its hash.
  unfoldable pub parted : List (List F) → List Item → List Item × List Text
  parted per_sub [] = ([], [])
  parted per_sub (p ∷ items) =
      let (wanted, to_dedup) = parted per_sub items in
      if is_wanted per_sub p then (p ∷ wanted, to_dedup) else (wanted, p.hash ∷ to_dedup)

  abbrev pub loaded_filters : List Item → List S → Option (List (List F))
  loaded_filters fresh subs = if null fresh then some [] else subscriber_filters subs

  -- What goes to the store, the entries and the hashes, with the number of fresh items.
  abbrev pub Stored : Type 0
  Stored = (List Item × List Text) × ℕ

  abbrev pub with_filters : List Item → Option (List (List F)) → Option Stored
  with_filters fresh none = none
  with_filters fresh (some per_sub) = some (parted per_sub fresh, length fresh)

  abbrev pub with_known : (Text → Text) → List S → List Item → Option (List Text) → Option Stored
  with_known sanitize subs items none = none
  with_known sanitize subs items (some known) =
      let fresh = fresh_items sanitize known items in with_filters fresh (loaded_filters fresh subs)

  -- `known_hashes` is `FilterKnownEntryHashes`; none is an error.
  unfoldable pub process_entries_filtered :
      (List Text → Option (List Text)) → (Text → Text) → List S → List Item → Option Stored
  process_entries_filtered known_hashes sanitize subs items =
      if null items
      then some (([], []), 0)
      else with_known sanitize subs items (known_hashes (asked_hashes items))

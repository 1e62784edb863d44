-- ===== src/Storing/Conserved.antt =====
-- A new item is stored or leaves its hash, once, and nothing else does.
use rssam.Common.{
  ℕ, ◌+◌, ◌≡◌, refl, sym, ◌∙◌, ap, Bool, true, false, not, ◌&&◌, Option, none, some, List, [], ◌∷◌,
  null, arith,
}
use rssam.Common.Text.{Text, text_eq_iff, times}
use rssam.Storing.{
  Item, asked_hashes, is_known, fresh_items, parted, process_entries_filtered, loaded_filters,
  with_filters, with_known,
}

abbrev pub hashes_of : List Item → List Text
hashes_of [] = []
hashes_of (p ∷ items) = p.hash ∷ hashes_of items

-- A hash that is not empty, is not known, and is that of an item.
abbrev pub is_new : List Text → List Item → Text → Bool
is_new known items h = not (null h) && not (is_known known h) && is_known (hashes_of items) h

abbrev pub one_if : Bool → ℕ
one_if true = 1
one_if false = 0

times-fresh_items :
    (sanitize : Text → Text) (known : List Text) (items : List Item) (h : Text)
    → times h (hashes_of (fresh_items sanitize known items)) ≡ one_if (is_new known items h)
unfolding fresh_items
times-fresh_items sanitize known [] h = ground arith
times-fresh_items sanitize known (p ∷ items) h = ground (
  arith,
  times-fresh_items sanitize known items h,
  times-fresh_items sanitize (p.hash ∷ known) items h,
  text_eq_iff p.hash h,
)

some_same : {A : Type 0} (a b : A) → ◌≡◌ {A = Option A} (some a) (some b) → a ≡ b
some_same a b e = cc

module _ {S : Type 0} {F : Type 0} (list_filters : S → Option (List F))
    (match_entry : List F → Item → Option (List ℕ)) where
  times-parted :
      (per_sub : List (List F)) (items : List Item) (h : Text)
      → times h (hashes_of (parted list_filters match_entry per_sub items).0)
          + times h (parted list_filters match_entry per_sub items).1
        ≡ times h (hashes_of items)
  unfolding parted
  times-parted per_sub [] h = refl
  times-parted per_sub (p ∷ items) h = ground (arith, times-parted per_sub items h)

  times-with_filters :
      (fresh : List Item) (o : Option (List (List F))) (wanted : List Item) (to_dedup : List Text)
      (n : ℕ) (h : Text)
      → with_filters list_filters match_entry fresh o ≡ some ((wanted, to_dedup), n)
      → times h (hashes_of wanted) + times h to_dedup ≡ times h (hashes_of fresh)
  times-with_filters fresh none wanted to_dedup n h result = cc
  times-with_filters fresh (some per_sub) wanted to_dedup n h result =
      let e = some_same _ _ result in
      ap (λ x. times h (hashes_of x.0.0) + times h x.0.1) (sym e) ∙ times-parted per_sub fresh h

  -- Where the store knows some hashes, a poll that goes to the store takes every new item once, as an
  -- entry or by its hash alone, and nothing that is known, has no hash or was not fetched.
  pub times-process_entries_filtered :
      (known_hashes : List Text → Option (List Text)) (sanitize : Text → Text) (subs : List S)
      (items : List Item) (known : List Text) (wanted : List Item) (to_dedup : List Text)
      (fresh : ℕ) (h : Text)
      → known_hashes (asked_hashes items) ≡ some known
      → process_entries_filtered list_filters match_entry known_hashes sanitize subs items
        ≡ some ((wanted, to_dedup), fresh)
      → times h (hashes_of wanted) + times h to_dedup ≡ one_if (is_new known items h)
  unfolding process_entries_filtered
  times-process_entries_filtered known_hashes sanitize subs [] known wanted to_dedup fresh h asked
        result =
      (let e = some_same _ _ result in
        ap (λ x. times h (hashes_of x.0.0) + times h x.0.1) (sym e) ∙ ground arith)
  times-process_entries_filtered known_hashes sanitize subs (p ∷ items) known wanted to_dedup fresh
        h asked result =
      times-with_filters (fresh_items sanitize known (p ∷ items))
        (loaded_filters list_filters match_entry (fresh_items sanitize known (p ∷ items)) subs)
        wanted to_dedup fresh h
        (ap (with_known list_filters match_entry sanitize subs (p ∷ items)) (sym asked) ∙ result)
      ∙ times-fresh_items sanitize known (p ∷ items) h

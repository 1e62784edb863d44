-- ===== src/Filter/Match/Scope.antt =====
-- The feeds that a filter applies to.
use rssam.Common.{ℕ, ◌≡◌, ◌≢◌, true, Option, none, some, List, [], ◌∷◌, ◌⊎◌, ◌↔◌, arith, ==_iff}
use rssam.Common.Text.{codes, text_eq_iff}
use rssam.Filter.{Regexp, FilterScopeItem}
use rssam.Filter.Compile.{CompiledFilter}
use rssam.Filter.Match.{MatchContext, matches_feed_scope, any_covers, item_covers, same_id}

-- An item names the feed of the context, or its category where that is known.
abbrev pub Covers : MatchContext → FilterScopeItem → Type 0
Covers ctx item =
    (item.feed_id ≡ some ctx.feed_id)
    ⊎ ((item.category_id ≢ none) × (item.category_id ≡ ctx.category_id))

abbrev pub SomeCovers : MatchContext → List FilterScopeItem → Type 0
SomeCovers ctx [] = ⊥
SomeCovers ctx (item ∷ items) = Covers ctx item ⊎ SomeCovers ctx items

same_id_iff : (a b : Option ℕ) → (same_id a b ≡ true) ↔ ((a ≢ none) × (a ≡ b))
same_id_iff none b = ground arith
same_id_iff (some a) none = ground arith
same_id_iff (some a) (some b) = ground (arith, ==_iff a b)

same_id-some_iff : (a : Option ℕ) (b : ℕ) → (same_id a (some b) ≡ true) ↔ (a ≡ some b)
same_id-some_iff none b = ground arith
same_id-some_iff (some a) b = ground (arith, ==_iff a b)

item_covers_iff :
    (ctx : MatchContext) (item : FilterScopeItem) → (item_covers ctx item ≡ true) ↔ Covers ctx item
unfolding item_covers
item_covers_iff ctx item =
    ground (
      arith,
      same_id-some_iff item.feed_id ctx.feed_id,
      same_id_iff item.category_id ctx.category_id,
    )

any_covers_iff :
    (ctx : MatchContext) (items : List FilterScopeItem)
    → (any_covers ctx items ≡ true) ↔ SomeCovers ctx items
unfolding any_covers
any_covers_iff ctx [] = ground arith
any_covers_iff ctx (item ∷ items) =
    ground (arith, item_covers_iff ctx item, any_covers_iff ctx items)

-- An include scope admits exactly the contexts that some item covers, so none if it has no items;
-- an exclude scope admits exactly the others; any other scope admits every context.
pub matches_feed_scope_iff :
    (R : Regexp) (cf : CompiledFilter R) (ctx : MatchContext)
    → (matches_feed_scope R cf ctx ≡ true)
      ↔ ((cf.feed_scope ≢ codes "include") ⊎ SomeCovers ctx cf.scope_items)
        × ((cf.feed_scope ≢ codes "exclude") ⊎ (¬ SomeCovers ctx cf.scope_items))
unfolding matches_feed_scope
matches_feed_scope_iff R cf ctx = ground (
  arith,
  any_covers_iff ctx cf.scope_items,
  text_eq_iff cf.feed_scope (codes "include"),
  text_eq_iff cf.feed_scope (codes "exclude"),
)

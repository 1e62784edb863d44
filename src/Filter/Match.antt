-- ===== src/Filter/Match.antt =====
-- `matchCompiled`, `ruleMatches`, `fieldValue` and `matchesFeedScope` of internal/filter/engine.go.
pub mod Verdict
pub mod Scope
use rssam.Common.{
  ℕ, ◌*◌, Bool, true, false, not, ◌&&◌, ◌||◌, Option, none, some, List, [], ◌∷◌, length, null, take,
  if◌then◌else◌, leb, ◌==◌,
}
use rssam.Common.Text.{Text, codes, text_eq}
use rssam.Filter.{Regexp, Entry, FilterScopeItem, field_query, lookup}
use rssam.Filter.Compile.{CompiledRule, CompiledFilter}

-- `query_hits` is nil, or a map from patterns.
pub record MatchContext : Type 0 where
  pub feed_id : ℕ
  pub category_id : Option ℕ
  pub query_hits : Option (List (Text × Bool))

pub record RuleMatchInfo : Type 0 where
  pub rule_id : ℕ
  pub field : Text
  pub pattern : Text
  pub negate : Bool
  pub op : Text
  pub matched : Bool

pub record MatchResult : Type 0 where
  pub filter_id : ℕ
  pub matched : Bool
  pub rules : List RuleMatchInfo

abbrev pub max_match_field_bytes : ℕ
max_match_field_bytes = 256 * 1024

unfoldable pub clip_match_field : Text → Text
clip_match_field s =
    let clipped = take max_match_field_bytes s in
    if leb (length s) max_match_field_bytes then s else clipped

abbrev author_or_empty : Option Text → Text
author_or_empty none = []
author_or_empty (some a) = clip_match_field a

unfoldable pub field_value : Entry → Text → Text
unfolding clip_match_field
field_value e field =
    if text_eq field (codes "title")
    then clip_match_field e.title
    else if text_eq field (codes "content")
    then clip_match_field e.content
    else if text_eq field (codes "author")
    then author_or_empty e.author
    else if text_eq field (codes "url")
    then clip_match_field e.url
    else []

-- A Go map returns false for a key that is missing, and a nil map for every key.
abbrev is_hit : Option Bool → Bool
is_hit none = false
is_hit (some b) = b

unfoldable pub query_hit : MatchContext → Text → Bool
query_hit ctx pattern = elim ctx.query_hits [
  | none ↦ false
  | some hits ↦ is_hit (lookup pattern hits)
]

-- One test of a scope item: the feed, or the category where both are known.
abbrev pub same_id : Option ℕ → Option ℕ → Bool
same_id (some a) (some b) = a == b
same_id none b = false
same_id (some a) none = false

unfoldable pub item_covers : MatchContext → FilterScopeItem → Bool
item_covers ctx item =
    same_id item.feed_id (some ctx.feed_id) || same_id item.category_id ctx.category_id

unfoldable pub any_covers : MatchContext → List FilterScopeItem → Bool
unfolding item_covers
any_covers ctx [] = false
any_covers ctx (item ∷ items) = item_covers ctx item || any_covers ctx items

-- The new value of `agg`, after the first rule.
unfoldable pub join : Bool → Text → Bool → Bool → Bool
join match_any_rule op agg found =
    if match_any_rule
    then agg || found
    else if text_eq op (codes "or")
    then agg || found
    else agg && found

module _ (R : Regexp) where
  open R use {Regex, match_string}

  -- A nil regular expression would be a fault; `IsCompiled` excludes it outside `query` rules.
  abbrev regex_matches : Option Regex → Text → Bool
  regex_matches none s = false
  regex_matches (some re) s = match_string re s

  abbrev pub rule_test : Entry → MatchContext → CompiledRule R → Bool
  rule_test entry ctx r =
      if text_eq r.field field_query
      then query_hit ctx r.pattern
      else if text_eq r.field (codes "both")
      then regex_matches r.re (clip_match_field entry.title)
        || regex_matches r.re (clip_match_field entry.content)
      else regex_matches r.re (field_value entry r.field)

  unfoldable pub rule_matches : Entry → MatchContext → CompiledRule R → Bool
  unfolding query_hit field_value
  rule_matches entry ctx r = if r.negate then not (rule_test entry ctx r) else rule_test entry ctx r

  abbrev pub rule_info : CompiledRule R → Bool → RuleMatchInfo
  rule_info r matched = record {
    rule_id = r.rule_id;
    field = r.field;
    pattern = r.pattern;
    negate = r.negate;
    op = r.op;
    matched = matched;
  }

  -- The loop, with the variables `agg` and `initialized`.
  unfoldable pub fold_rules :
      Entry → MatchContext → Bool → Bool → Bool → List (CompiledRule R) → Bool × List RuleMatchInfo
  fold_rules entry ctx match_any_rule agg initialized [] = (agg, [])
  fold_rules entry ctx match_any_rule agg initialized (r ∷ rs) =
      let found = rule_matches entry ctx r in
      let agg' = if initialized then join match_any_rule r.op agg found else found in
      let (result, info) = fold_rules entry ctx match_any_rule agg' true rs in
      (result, rule_info r found ∷ info)

  unfoldable pub match_compiled : Entry → MatchContext → CompiledFilter R → MatchResult
  match_compiled entry ctx f =
      let (agg, info) = fold_rules entry ctx f.match_any_rule false false f.rules in
      if null f.rules
      then record { filter_id = f.filter_id; matched = false; rules = [] }
      else record {
        filter_id = f.filter_id;
        matched = if f.inverse then not agg else agg;
        rules = info;
      }

  unfoldable pub matches_feed_scope : CompiledFilter R → MatchContext → Bool
  matches_feed_scope cf ctx =
      if text_eq cf.feed_scope (codes "include")
      then any_covers ctx cf.scope_items
      else if text_eq cf.feed_scope (codes "exclude")
      then not (any_covers ctx cf.scope_items)
      else true

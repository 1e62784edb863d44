-- ===== src/Filter/Compile.antt =====
-- `New`, `compileFilter` and `ValidateRules` of internal/filter/engine.go.
pub mod Validation
use rssam.Common.{
  ℕ, Bool, true, false, ◌&&◌, ◌||◌, Option, none, some, List, [], ◌∷◌, length, null, map,
  if◌then◌else◌,
}
use rssam.Common.Int.{ℤ, pos, ltb_ℤ, leb_ℤ}
use rssam.Common.Results.{Result, ok, err, ◌>>=◌, collect}
use rssam.Common.Text.{Text, codes, text_eq, trim_space, to_lower}
use rssam.Filter.{
  Regexp, FilterRule, CreateFilterRuleParams, FilterScopeItem, Filter, FilterError, too_many_rules,
  first_rule_or, empty_regex, regex_too_long, invalid_field, compile_regex, field_query, Config,
}

-- `New`: limits that are not positive are replaced.
unfoldable pub new_config : Config → Config
new_config cfg = record {
  max_rules_per_filter =
      if leb_ℤ cfg.max_rules_per_filter (pos 0) then pos 50 else cfg.max_rules_per_filter;
  max_regex_length = if leb_ℤ cfg.max_regex_length (pos 0) then pos 2048 else cfg.max_regex_length;
}

-- `strings.ToLower(strings.TrimSpace(s))`
abbrev pub canonical : Text → Text
canonical s = to_lower (trim_space s)

unfoldable pub normalize_feed_scope : Text → Text
normalize_feed_scope scope =
    if text_eq (canonical scope) (codes "include") || text_eq (canonical scope) (codes "exclude")
    then canonical scope
    else codes "all"

unfoldable pub is_allowed_field : Text → Bool
is_allowed_field f =
    text_eq f (codes "title")
    || text_eq f (codes "content")
    || text_eq f (codes "both")
    || text_eq f (codes "author")
    || text_eq f (codes "url")
    || text_eq f field_query

unfoldable pub or_default : Text → Text
or_default op = if null op then codes "and" else op

abbrev pub too_long : ℤ → Text → Bool
too_long limit pat = ltb_ℤ (pos 0) limit && ltb_ℤ limit (pos (length pat))

-- `storage.FilterRule{Field: …, Pattern: …, Negate: …, Op: …}`: the id is zero.
abbrev pub unsaved : CreateFilterRuleParams → FilterRule
unsaved r = record { id = 0; field = r.field; pattern = r.pattern; negate = r.negate; op = r.op }

abbrev pub joins_nothing : List CreateFilterRuleParams → Bool
joins_nothing [] = false
joins_nothing (r ∷ rs) = text_eq (canonical r.op) (codes "or")

abbrev pub too_many {ℓ} : {A : Type ℓ} → Config → List A → Bool
too_many cfg rules =
    ltb_ℤ (pos 0) cfg.max_rules_per_filter && ltb_ℤ cfg.max_rules_per_filter (pos (length rules))

module _ (R : Regexp) where
  open R use {Regex, compile}

  -- `re` is nil for a `query` rule.
  pub record CompiledRule : Type 0 where
    pub rule_id : ℕ
    pub field : Text
    pub pattern : Text
    pub negate : Bool
    pub op : Text
    pub re : Option Regex

  pub record CompiledFilter : Type 0 where
    pub filter_id : ℕ
    pub match_any_rule : Bool
    pub inverse : Bool
    pub feed_scope : Text
    pub scope_items : List FilterScopeItem
    pub rules : List CompiledRule
    pub has_query : Bool

  -- The regular expression of a rule, nil where the field is `query`.
  unfoldable pub compile_pattern : Text → Text → Result FilterError (Option Regex)
  compile_pattern field pat =
      if text_eq field field_query
      then ok none
      else elim (compile pat) [ none ↦ err compile_regex | some re ↦ ok (some re) ]

  -- One round of the loop of `compileFilter`.
  unfoldable pub compile_rule : ℤ → FilterRule → Result FilterError CompiledRule
  unfolding compile_pattern
  compile_rule max_regex_len r =
      let pat = trim_space r.pattern in
      let field = canonical r.field in
      if null pat
      then err empty_regex
      else if too_long max_regex_len pat
      then err (regex_too_long (length pat))
      else if is_allowed_field field
      then (do
        re ← compile_pattern field pat
        ok (record {
          rule_id = r.id;
          field = field;
          pattern = pat;
          negate = r.negate;
          op = or_default (canonical r.op);
          re = re;
        }))
      else err (invalid_field field)

  -- The first rule that fails ends the loop.
  unfoldable pub compile_rules : ℤ → List FilterRule → Result FilterError (List CompiledRule)
  compile_rules max_regex_len [] = ok []
  compile_rules max_regex_len (r ∷ rs) =
      collect (compile_rule max_regex_len r) (compile_rules max_regex_len rs)

  abbrev pub uses_query : List CompiledRule → Bool
  uses_query [] = false
  uses_query (c ∷ cs) = text_eq c.field field_query || uses_query cs

  -- A filter with the compiled rules `cs`; no rules at all is the first case of `getCompiled`.
  abbrev pub compiled_with : Filter → List CompiledRule → CompiledFilter
  compiled_with f cs = record {
    filter_id = f.id;
    match_any_rule = f.match_any_rule;
    inverse = f.inverse;
    feed_scope = normalize_feed_scope f.feed_scope;
    scope_items = f.scope_items;
    rules = cs;
    has_query = uses_query cs;
  }

  unfoldable pub compile_filter : Filter → ℤ → Result FilterError CompiledFilter
  compile_filter f max_regex_len = do
    cs ← compile_rules max_regex_len f.rules
    ok (compiled_with f cs)

  unfoldable pub validate_rules :
      Config → List CreateFilterRuleParams → Result FilterError (Unit {0})
  validate_rules cfg rules =
      if too_many cfg rules
      then err too_many_rules
      else if joins_nothing rules
      then err first_rule_or
      else do cs ← compile_rules cfg.max_regex_length (map unsaved rules); ok tt

-- ===== src/Filter/Tests.antt =====
-- Runs of the filter engine, and the theorems applied to them. A pattern stands for the texts that
-- begin with it; one that begins with a bracket does not compile.
use rssam.Common.{
  ℕ, ◌≡◌, refl, Bool, true, false, ◌||◌, ◌&&◌, none, some, List, [], ◌∷◌, map, any, all, All,
  if◌then◌else◌, ◌==◌,
}
use rssam.Common.Int.{pos}
use rssam.Common.Results.{ok, err}
use rssam.Common.Text.{Text, codes, trim_space, to_lower, lower, has_prefix}
use rssam.Filter.{
  Regexp, Entry, FilterRule, Filter, Config, lookup, query_rules_unsupported, first_rule_or,
  empty_regex, invalid_field, compile_regex,
}
use rssam.Filter.Compile.{
  CompiledRule, CompiledFilter, compile_pattern, compile_rule, compile_rules, compile_filter,
  validate_rules, normalize_feed_scope, is_allowed_field, or_default, compiled_with,
}
use rssam.Filter.Compile.Validation.{params_of}
use rssam.Filter.Match.{
  MatchContext, clip_match_field, field_value, query_hit, item_covers, any_covers, join,
  rule_matches, fold_rules, match_compiled, matches_feed_scope,
}
use rssam.Filter.Match.Verdict.{inverted, match_compiled-any, match_compiled-all}
use rssam.Filter.Engine.{
  CacheKey, Cache, version, key_of, cached, store, get_compiled, filter_outcome, match_entry,
}
use rssam.Filter.Engine.Transparency.{IsSound, match_anew, match_entry-eq-match_anew}

engine : Unit {0}
unfolding match_entry filter_outcome get_compiled store cached version match_compiled fold_rules
    join rule_matches query_hit field_value clip_match_field matches_feed_scope any_covers
    item_covers validate_rules compile_filter compile_rules compile_rule compile_pattern or_default
    is_allowed_field normalize_feed_scope lookup trim_space to_lower lower has_prefix
engine = tt

abbrev begins_with_bracket : Text → Bool
begins_with_bracket [] = false
begins_with_bracket (c ∷ s) = c == b'('

abbrev prefixes : Regexp
prefixes = record {
  Regex = Text;
  compile = λ pat. if begins_with_bracket pat then none else some pat;
  match_string = λ re s. has_prefix s re;
}

abbrev cfg : Config
cfg = record { max_rules_per_filter = pos 50; max_regex_length = pos 2048 }

abbrev entry : Entry
entry = record {
  id = 1;
  feed_id = 4;
  title = codes "Go 1.30";
  content = codes "release notes";
  author = some (codes "rsc");
  url = codes "https://go.dev";
}

abbrev ctx : MatchContext
ctx = record { feed_id = 4; category_id = some 9; query_hits = none }

abbrev rule : Text → Text → Bool → Text → FilterRule
rule field pattern negate op = record {
  id = 0;
  field = field;
  pattern = pattern;
  negate = negate;
  op = op;
}

abbrev go_title : FilterRule
go_title = rule (codes " Title ") (codes "Go") false []

abbrev not_spam : FilterRule
not_spam = rule (codes "author") (codes "spam") true (codes "and")

abbrev filter_of : ℕ → List FilterRule → Filter
filter_of id rules = record {
  id = id;
  match_any_rule = false;
  inverse = false;
  feed_scope = codes "Include";
  updated_at = some (pos 77);
  rules = rules;
  scope_items = record { feed_id = none; category_id = some 9 } ∷ [];
}

abbrev go_filter : Filter
go_filter = filter_of 1 (go_title ∷ not_spam ∷ [])

abbrev compiled_rule : Text → Text → Bool → CompiledRule prefixes
compiled_rule field pattern negate = record {
  rule_id = 0;
  field = field;
  pattern = pattern;
  negate = negate;
  op = codes "and";
  re = some pattern;
}

abbrev go_compiled_rule : CompiledRule prefixes
go_compiled_rule = compiled_rule (codes "title") (codes "Go") false

abbrev not_spam_compiled_rule : CompiledRule prefixes
not_spam_compiled_rule = compiled_rule (codes "author") (codes "spam") true

abbrev go_compiled : CompiledFilter prefixes
go_compiled = compiled_with prefixes go_filter (go_compiled_rule ∷ not_spam_compiled_rule ∷ [])

abbrev any_compiled : CompiledFilter prefixes
any_compiled = record go_compiled { match_any_rule = true; inverse = true }

compiles : compile_filter prefixes go_filter (pos 2048) ≡ ok go_compiled
unfolding engine
compiles = refl

validation :
    (validate_rules prefixes cfg (map params_of go_filter.rules) ≡ ok tt)
    × (validate_rules prefixes cfg
          (params_of (rule (codes "url") (codes "a") false (codes "OR")) ∷ [])
        ≡ err first_rule_or)
    × (validate_rules prefixes cfg (params_of (rule (codes "url") (codes " ") false []) ∷ [])
        ≡ err empty_regex)
    × (validate_rules prefixes cfg (params_of (rule (codes "Tag") (codes "a") false []) ∷ [])
        ≡ err (invalid_field (codes "tag")))
    × (validate_rules prefixes cfg (params_of (rule (codes "url") (codes "(") false []) ∷ [])
        ≡ err compile_regex)
unfolding engine
validation = (refl, refl, refl, refl, refl)

abbrev finds : CompiledRule prefixes → Bool
finds r = rule_matches prefixes entry ctx r

verdicts :
    ((match_compiled prefixes entry ctx go_compiled).matched ≡ true)
    × ((match_compiled prefixes entry ctx any_compiled).matched ≡ false)
    × (finds (compiled_rule (codes "both") (codes "release") false) ≡ true)
    × (finds (compiled_rule (codes "query") (codes "Go") false) ≡ false)
unfolding engine
verdicts = (refl, refl, refl, refl)

match_compiled-any_example :
    (match_compiled prefixes entry ctx any_compiled).matched
    ≡ inverted true (finds go_compiled_rule || any finds (not_spam_compiled_rule ∷ []))
match_compiled-any_example =
    match_compiled-any prefixes entry ctx any_compiled go_compiled_rule
      (not_spam_compiled_rule ∷ []) refl refl

match_compiled-all_example :
    (match_compiled prefixes entry ctx go_compiled).matched
    ≡ inverted false (finds go_compiled_rule && all finds (not_spam_compiled_rule ∷ []))
match_compiled-all_example =
    match_compiled-all prefixes entry ctx go_compiled go_compiled_rule (not_spam_compiled_rule ∷ [])
      refl refl (refl, tt)

-- A filter that asks for a full-text query, in a context without hits.
abbrev query_filter : Filter
query_filter = filter_of 2 (rule (codes "query") (codes "go") false [] ∷ [])

abbrev revision : CacheKey → Filter
revision k = if k.id == 1 then go_filter else query_filter

abbrev warm : Cache prefixes
warm = (key_of go_filter, go_compiled) ∷ []

runs :
    ((match_entry prefixes cfg entry ctx false warm (go_filter ∷ query_filter ∷ [])).1
      ≡ ok (record { filter_id = 1; details = match_compiled prefixes entry ctx go_compiled } ∷ []))
    × ((match_entry prefixes cfg entry ctx true warm (go_filter ∷ query_filter ∷ [])).1
        ≡ err query_rules_unsupported)
unfolding engine
runs = (refl, refl)

filters_revision : All (λ f. revision (key_of f) ≡ f) (go_filter ∷ query_filter ∷ [])
unfolding engine
filters_revision = (refl, (refl, tt))

warm-IsSound : IsSound prefixes cfg revision warm
unfolding engine
warm-IsSound = (refl, tt)

match_entry-eq-match_anew_example :
    ((match_entry prefixes cfg entry ctx true warm (go_filter ∷ query_filter ∷ [])).1
      ≡ match_anew prefixes cfg entry ctx true (go_filter ∷ query_filter ∷ []))
    × IsSound prefixes cfg revision
        (match_entry prefixes cfg entry ctx true warm (go_filter ∷ query_filter ∷ [])).0
match_entry-eq-match_anew_example =
    match_entry-eq-match_anew prefixes cfg revision entry ctx true warm
      (go_filter ∷ query_filter ∷ []) filters_revision warm-IsSound

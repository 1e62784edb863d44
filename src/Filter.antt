-- ===== src/Filter.antt =====
-- internal/filter: the rules that decide which entries a subscriber's filters select. Regular
-- expressions are Go's package `regexp`, a parameter of the model.
pub mod Tests
pub mod Compile
pub mod Match
pub mod Engine
use rssam.Common.{ℕ, Bool, true, false, Option, none, some, List, [], ◌∷◌, if◌then◌else◌}
use rssam.Common.Int.{ℤ, negsuc}
use rssam.Common.Text.{Text, codes, text_eq}

-- `regexp.Compile`, whose error is `none`, and `MatchString`.
pub record Regexp : Type 1 where
  pub Regex : Type 0
  pub compile : Text → Option Regex
  pub match_string : Regex → Text → Bool

-- The fields of storage.Entry that filters read.
pub record Entry : Type 0 where
  pub id : ℕ
  pub feed_id : ℕ
  pub title : Text
  pub content : Text
  pub author : Option Text
  pub url : Text

pub record FilterRule : Type 0 where
  pub id : ℕ
  pub field : Text
  pub pattern : Text
  pub negate : Bool
  pub op : Text

pub record CreateFilterRuleParams : Type 0 where
  pub field : Text
  pub pattern : Text
  pub negate : Bool
  pub op : Text

pub record FilterScopeItem : Type 0 where
  pub feed_id : Option ℕ
  pub category_id : Option ℕ

-- `updated_at` is `none` for the zero time.
pub record Filter : Type 0 where
  pub id : ℕ
  pub match_any_rule : Bool
  pub inverse : Bool
  pub feed_scope : Text
  pub updated_at : Option ℤ
  pub rules : List FilterRule
  pub scope_items : List FilterScopeItem

-- `errors.New` and `fmt.Errorf` of the engine.
pub data FilterError : Type 0 where
  too_many_rules : FilterError
  first_rule_or : FilterError
  empty_regex : FilterError
  regex_too_long : ℕ → FilterError
  invalid_field : Text → FilterError
  compile_regex : FilterError
  query_rules_unsupported : FilterError

abbrev pub field_query : Text
field_query = codes "query"

pub record Config : Type 0 where
  pub max_rules_per_filter : ℤ
  pub max_regex_length : ℤ

module _ {ℓ} {V : Type ℓ} where
  -- A Go map with text keys.
  unfoldable pub lookup : Text → List (Text × V) → Option V
  lookup k [] = none
  lookup k ((j, v) ∷ m) = if text_eq j k then some v else lookup k m

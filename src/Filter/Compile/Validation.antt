-- ===== src/Filter/Compile/Validation.antt =====
-- What `ValidateRules` and `compileFilter` establish.
use rssam.Common.{
  ◌≡◌, refl, true, false, List, [], ◌∷◌, null, length-map, map, All, Bool-cases, inl, inr, arith,
}
use rssam.Common.Int.{ℤ}
use rssam.Common.Results.{ok, IsOk, collect-eq-ok, >>=-eq-ok}
use rssam.Filter.{Regexp, FilterRule, CreateFilterRuleParams, Filter, Config}
use rssam.Filter.Compile.{
  CompiledRule, CompiledFilter, compile_pattern, compile_rule, compile_rules, compile_filter,
  compiled_with, unsaved, validate_rules, too_many, joins_nothing, is_allowed_field,
}

abbrev pub params_of : FilterRule → CreateFilterRuleParams
params_of r = record { field = r.field; pattern = r.pattern; negate = r.negate; op = r.op }

module _ (R : Regexp) (limit : ℤ) where
  -- The id of a rule plays no part in its compilation.
  compile_rule-unsaved :
      (r : FilterRule)
      → IsOk (compile_rule R limit (unsaved (params_of r)))
      → IsOk (compile_rule R limit r)
  unfolding compile_rule
  compile_rule-unsaved r (c, h) = (record c { rule_id = r.id }, ground arith)

  compile_rules-unsaved :
      (rs : List FilterRule)
      → IsOk (compile_rules R limit (map unsaved (map params_of rs)))
      → IsOk (compile_rules R limit rs)
  unfolding compile_rules
  compile_rules-unsaved [] h = ([], refl)
  compile_rules-unsaved (r ∷ rs) (cs, h) =
      let (c, more, first, rest, _) = collect-eq-ok _ _ h in
      let (c', first') = compile_rule-unsaved r (c, first) in
      let (more', rest') = compile_rules-unsaved rs (more, rest) in (c' ∷ more', rw (first', rest'))

-- Rules that `ValidateRules` accepts are the rules of a filter that compiles, whatever ids the
-- rules are stored under.
pub validate_rules-compile_filter :
    (R : Regexp) (cfg : Config) (f : Filter)
    → validate_rules R cfg (map params_of f.rules) ≡ ok tt
    → IsOk (compile_filter R f cfg.max_regex_length) × (too_many cfg f.rules ≡ false)
unfolding validate_rules compile_filter
validate_rules-compile_filter R cfg f h = elim (Bool-cases (too_many cfg (map params_of f.rules))) [
  | inl many ↦ cc (rw many at h)
  | inr few ↦ elim (Bool-cases (joins_nothing (map params_of f.rules))) [
    | inl joins ↦ cc (rw (few, joins) at h)
    | inr starts ↦
        let (cs, _, compiled) =
          >>=-eq-ok (λ _. ok tt)
            (compile_rules R cfg.max_regex_length (map unsaved (map params_of f.rules)))
            (rw (few, starts) at h) in
        let (cs', compiled') =
          compile_rules-unsaved R cfg.max_regex_length f.rules (cs, compiled) in
        ((compiled_with R f cs', rw compiled'), rw length-map at few)
  ]
]

-- What a compiled rule satisfies: an allowed field, a pattern, and a regular expression compiled
-- from it unless the rule is a `query`; so no rule is matched through a nil pointer.
pub record IsCompiled (R : Regexp) (c : CompiledRule R) : Type 0 where
  pub allowed : is_allowed_field c.field ≡ true
  pub pattern_given : null c.pattern ≡ false
  pub regex : compile_pattern R c.field c.pattern ≡ ok c.re

module _ (R : Regexp) (limit : ℤ) where
  compile_rule-IsCompiled :
      (r : FilterRule) (c : CompiledRule R) → compile_rule R limit r ≡ ok c → IsCompiled R c
  unfolding compile_rule
  compile_rule-IsCompiled r c h = ground arith

  compile_rules-IsCompiled :
      (rs : List FilterRule) (cs : List (CompiledRule R))
      → compile_rules R limit rs ≡ ok cs
      → All (IsCompiled R) cs
  unfolding compile_rules
  compile_rules-IsCompiled [] [] h = tt
  compile_rules-IsCompiled [] (c ∷ cs) h = cc
  compile_rules-IsCompiled (r ∷ rs) cs h =
      let (c, more, first, rest, same) = collect-eq-ok _ _ h in
      rw same (compile_rule-IsCompiled r c first, compile_rules-IsCompiled rs more rest)

-- Every rule of a compiled filter has an allowed field and a pattern, and the regular expression
-- that is compiled from it unless its field is `query`.
pub compile_filter-IsCompiled :
    (R : Regexp) (f : Filter) (limit : ℤ) (cf : CompiledFilter R)
    → compile_filter R f limit ≡ ok cf
    → All (IsCompiled R) cf.rules
unfolding compile_filter
compile_filter-IsCompiled R f limit cf h =
    let (cs, same, compiled) =
      >>=-eq-ok (λ cs. ok (compiled_with R f cs)) (compile_rules R limit f.rules) h in
    let rules_same : cs ≡ cf.rules = cc in
    rw (← rules_same) (compile_rules-IsCompiled R limit f.rules cs compiled)

-- ===== src/Filter/Match/Verdict.antt =====
-- How the rules of a filter combine to its verdict.
use rssam.Common.{
  ◌≡◌, refl, Bool, true, false, not, ◌&&◌, ◌||◌, List, [], ◌∷◌, ◌++◌, any, all, All, arith,
  if◌then◌else◌,
}
use rssam.Common.Text.{codes, text_eq}
use rssam.Filter.{Regexp, Entry}
use rssam.Filter.Compile.{CompiledRule, CompiledFilter}
use rssam.Filter.Match.{MatchContext, rule_matches, join, fold_rules, match_compiled}

-- `inverse` turns the verdict round.
abbrev pub inverted : Bool → Bool → Bool
inverted inverse b = if inverse then not b else b

-- No rule of the list is joined by "or".
abbrev pub IsConjunctive : (R : Regexp) → List (CompiledRule R) → Type 0
IsConjunctive R rs = All (λ r. text_eq r.op (codes "or") ≡ false) rs

module _ (R : Regexp) (entry : Entry) (ctx : MatchContext) where
  abbrev found : CompiledRule R → Bool
  found r = rule_matches R entry ctx r

  fold_rules-any :
      (agg : Bool) (rs : List (CompiledRule R))
      → (fold_rules R entry ctx true agg true rs).0 ≡ (agg || any found rs)
  unfolding fold_rules join
  fold_rules-any agg [] = ground arith
  fold_rules-any agg (r ∷ rs) = ground (arith, fold_rules-any (agg || found r) rs)

  fold_rules-all :
      (agg : Bool) (rs : List (CompiledRule R))
      → IsConjunctive R rs
      → (fold_rules R entry ctx false agg true rs).0 ≡ (agg && all found rs)
  unfolding fold_rules join
  fold_rules-all agg [] h = ground arith
  fold_rules-all agg (r ∷ rs) h = rw h.0 (ground (arith, fold_rules-all (agg && found r) rs h.1))

  fold_rules-append :
      (any_rule agg : Bool) (rs : List (CompiledRule R)) (r : CompiledRule R)
      → (fold_rules R entry ctx any_rule agg true (rs ++ r ∷ [])).0
        ≡ join any_rule r.op (fold_rules R entry ctx any_rule agg true rs).0 (found r)
  unfolding fold_rules
  fold_rules-append any_rule agg [] r = refl
  fold_rules-append any_rule agg (s ∷ rs) r =
      fold_rules-append any_rule (join any_rule s.op agg (found s)) rs r

  module _ (f : CompiledFilter R) (r : CompiledRule R) (rs : List (CompiledRule R))
      (rules : f.rules ≡ r ∷ rs) where
    -- A filter with at least one rule, of which any may match, selects the entries that some rule
    -- matches; the inverse filter selects the others.
    pub match_compiled-any :
        f.match_any_rule ≡ true
        → (match_compiled R entry ctx f).matched ≡ inverted f.inverse (found r || any found rs)
    unfolding match_compiled
    match_compiled-any k = simp (rules, k) (unfold fold_rules in simp (fold_rules-any (found r) rs))

    -- If no rule after the first is joined by "or" and the filter does not ask for any rule, it
    -- selects the entries that all its rules match, whatever the first rule's operator; the
    -- inverse filter selects the others.
    pub match_compiled-all :
        f.match_any_rule ≡ false
        → IsConjunctive R rs
        → (match_compiled R entry ctx f).matched ≡ inverted f.inverse (found r && all found rs)
    unfolding match_compiled
    match_compiled-all k h =
        simp (rules, k) (unfold fold_rules in simp (fold_rules-all (found r) rs h))

    -- The rules count from left to right: one more rule at the end joins the verdict of the rules
    -- before it by its own operator.
    pub match_compiled-append :
        (last : CompiledRule R)
        → (match_compiled R entry ctx (record f { rules = f.rules ++ last ∷ [] })).matched
          ≡ inverted f.inverse (
              join f.match_any_rule last.op
                (inverted f.inverse (match_compiled R entry ctx f).matched)
                (found last))
    unfolding match_compiled
    match_compiled-append last =
        simp rules (
          unfold fold_rules in ground (arith, fold_rules-append f.match_any_rule (found r) rs last))

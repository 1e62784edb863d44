-- ===== src/Rules/Laws.antt =====
-- What the rules of a feed leave.
use rssam.Common.{
  ◌≡◌, refl, sym, ap, Bool, true, false, not, ◌&&◌, Option, none, some, List, [], ◌∷◌,
  if◌then◌else◌, keep_if, map, length, null, ◌%◌, ◌==◌, arith,
}
use rssam.Common.Text.{Text, trim_space, split}
use rssam.Rules.{
  Regexp, Compile, BridgeEntry, apply_compiled, RewriteRule, rewrite_rules, rewrite_url,
  rewrite_entries, apply_url_rewrite_rules, rule_text, is_blocked, passes_keep, filter_entries,
  apply_feed_rules, compile_multiline_regex,
}

-- An entry that stays: it matches no blocking rule, and a keeping rule where there are some.
abbrev pub stays : Compile → Text → Text → BridgeEntry → Bool
stays compile blocked_rules keep_rules e =
    not (is_blocked (compile_multiline_regex compile blocked_rules) (rule_text e))
    && passes_keep (compile_multiline_regex compile keep_rules) (rule_text e)

filter_entries-eq-keep_if :
    (blocked keep : Option Regexp) (es : List BridgeEntry)
    → filter_entries blocked keep es
      ≡ keep_if (λ e. not (is_blocked blocked (rule_text e)) && passes_keep keep (rule_text e)) es
unfolding filter_entries
filter_entries-eq-keep_if blocked keep [] = refl
filter_entries-eq-keep_if blocked keep (e ∷ es) =
    ground (arith, filter_entries-eq-keep_if blocked keep es)

keep_if_all {ℓ} : {A : Type ℓ} (xs : List A) → keep_if (λ x. true) xs ≡ xs
keep_if_all [] = refl
keep_if_all (x ∷ xs) = ap (◌∷◌ x) (keep_if_all xs)

apply_compiled-eq-keep_if :
    (blocked keep : Option Regexp) (es : List BridgeEntry)
    → apply_compiled blocked keep es
      ≡ keep_if (λ e. not (is_blocked blocked (rule_text e)) && passes_keep keep (rule_text e)) es
apply_compiled-eq-keep_if none none es = sym (keep_if_all es)
apply_compiled-eq-keep_if (some b) keep es = filter_entries-eq-keep_if (some b) keep es
apply_compiled-eq-keep_if none (some k) es = filter_entries-eq-keep_if none (some k) es

-- The entries that remain are those that match no blocking rule and, where there are keeping rules,
-- match one, in their order; blank rules, and rules that do not compile, drop nothing.
apply_feed_rules-eq-keep_if :
    (compile : Compile) (es : List BridgeEntry) (blocked_rules keep_rules : Text)
    → apply_feed_rules compile es blocked_rules keep_rules
      ≡ keep_if (stays compile blocked_rules keep_rules) es
unfolding apply_feed_rules
apply_feed_rules-eq-keep_if compile es blocked_rules keep_rules =
    apply_compiled-eq-keep_if (compile_multiline_regex compile blocked_rules)
      (compile_multiline_regex compile keep_rules) es

-- The rules that take effect: those of an even number of lines.
abbrev pub effective_rules : Compile → Text → List RewriteRule
effective_rules compile rules =
    let lines = split b'\n' (trim_space rules) in
    if null (trim_space rules)
    then []
    else if length lines % 2 == 0
    then rewrite_rules compile lines
    else []

-- An entry with the rules applied to its URL, one after the other.
abbrev pub rewritten : List RewriteRule → BridgeEntry → BridgeEntry
rewritten rs e = record e { url = rewrite_url rs e.url }

rewrite_entries-eq-map :
    (rs : List RewriteRule) (es : List BridgeEntry) → rewrite_entries rs es ≡ map (rewritten rs) es
unfolding rewrite_entries
rewrite_entries-eq-map rs [] = refl
rewrite_entries-eq-map rs (e ∷ es) = ap (◌∷◌ (rewritten rs e)) (rewrite_entries-eq-map rs es)

map_no_rules : (es : List BridgeEntry) → map (rewritten []) es ≡ es
unfolding rewrite_url
map_no_rules [] = refl
map_no_rules (e ∷ es) = ap (◌∷◌ e) (map_no_rules es)

by_rules :
    (blank even : Bool) (rs : List RewriteRule) (es : List BridgeEntry)
    → (if blank then es else if not even then es else if null rs then es else rewrite_entries rs es)
      ≡ map (rewritten (if blank then [] else if even then rs else [])) es
by_rules true even rs es = sym (map_no_rules es)
by_rules false false rs es = sym (map_no_rules es)
by_rules false true [] es = sym (map_no_rules es)
by_rules false true (r ∷ rs) es = rewrite_entries-eq-map (r ∷ rs) es

-- The rules that take effect rewrite the URL of every entry, one after the other, and nothing else;
-- rules with a line too many change nothing.
pub apply_url_rewrite_rules-eq-map :
    (compile : Compile) (es : List BridgeEntry) (rules : Text)
    → apply_url_rewrite_rules compile es rules ≡ map (rewritten (effective_rules compile rules)) es
unfolding apply_url_rewrite_rules
apply_url_rewrite_rules-eq-map compile es rules =
    by_rules (null (trim_space rules)) (length (split b'\n' (trim_space rules)) % 2 == 0)
      (rewrite_rules compile (split b'\n' (trim_space rules))) es

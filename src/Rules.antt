-- ===== src/Rules.antt =====
-- internal/reader/rules.go: the rules of a feed, which drop entries and rewrite their URLs. Package
-- regexp is a parameter.
pub mod Laws
pub mod Tests
use rssam.Common.{
  ℕ, ◌+◌, ◌/◌, ◌%◌, Bool, true, false, not, ◌&&◌, ◌||◌, Option, none, some, List, [], ◌∷◌, ◌++◌,
  if◌then◌else◌, ◌==◌, null, length,
}
use rssam.Common.Text.{Text, codes, trim_space, split}

-- A compiled expression: `MatchString`, and `ReplaceAllString` for a replacement.
pub record Regexp : Type 0 where
  pub match_string : Text → Bool
  pub replace_all_string : Text → Text → Text

abbrev pub Compile : Type 0
Compile = Text → Option Regexp

-- `bridge.Entry`, the fields that rules read or change; `entry_hash` stands for the others.
pub record BridgeEntry : Type 0 where
  pub title : Text
  pub url : Text
  pub content : Text
  pub author : Option Text
  pub entry_hash : Text

-- The lines that are not blank, trimmed.
unfoldable pub patterns_of : List Text → List Text
patterns_of [] = []
patterns_of (line ∷ lines) =
    let rest = patterns_of lines in if null (trim_space line) then rest else trim_space line ∷ rest

-- `strings.Join(patterns, ")|(?:")`
unfoldable pub join_patterns : List Text → Text
join_patterns [] = []
join_patterns (p ∷ []) = p
join_patterns (p ∷ q ∷ ps) = p ++ codes ")|(?:" ++ join_patterns (q ∷ ps)

abbrev compiled_of : Compile → List Text → Option Regexp
compiled_of compile [] = none
compiled_of compile (p ∷ ps) = compile (codes "(?:" ++ join_patterns (p ∷ ps) ++ codes ")")

unfoldable pub compile_multiline_regex : Compile → Text → Option Regexp
compile_multiline_regex compile rules =
    let s = trim_space rules in
    if null s then none else compiled_of compile (patterns_of (split b'\n' s))

abbrev author_text : Option Text → Text
author_text none = []
author_text (some a) = codes " " ++ a

-- The text that the rules are matched with.
unfoldable pub rule_text : BridgeEntry → Text
rule_text e = e.title ++ codes " " ++ e.content ++ codes " " ++ e.url ++ author_text e.author

abbrev pub is_blocked : Option Regexp → Text → Bool
is_blocked none text = false
is_blocked (some re) text = re.match_string text

abbrev pub passes_keep : Option Regexp → Text → Bool
passes_keep none text = true
passes_keep (some re) text = re.match_string text

-- The loop of `ApplyFeedRules`.
unfoldable pub filter_entries : Option Regexp → Option Regexp → List BridgeEntry → List BridgeEntry
filter_entries blocked keep [] = []
filter_entries blocked keep (e ∷ es) =
    let rest = filter_entries blocked keep es in
    if is_blocked blocked (rule_text e)
    then rest
    else if not (passes_keep keep (rule_text e))
    then rest
    else e ∷ rest

abbrev pub apply_compiled : Option Regexp → Option Regexp → List BridgeEntry → List BridgeEntry
apply_compiled none none entries = entries
apply_compiled (some b) keep entries = filter_entries (some b) keep entries
apply_compiled none (some k) entries = filter_entries none (some k) entries

unfoldable pub apply_feed_rules : Compile → List BridgeEntry → Text → Text → List BridgeEntry
apply_feed_rules compile entries blocked_rules keep_rules =
    apply_compiled (compile_multiline_regex compile blocked_rules)
      (compile_multiline_regex compile keep_rules) entries

-- `rewriteRule`
pub record RewriteRule : Type 0 where
  pub pattern : Regexp
  pub replacement : Text

abbrev with_rule : Option Regexp → Text → List RewriteRule → List RewriteRule
with_rule none replacement rest = rest
with_rule (some re) replacement rest = record { pattern = re; replacement = replacement } ∷ rest

-- The loop over the pairs of lines.
unfoldable pub rewrite_rules : Compile → List Text → List RewriteRule
rewrite_rules compile [] = []
rewrite_rules compile (line ∷ []) = []
rewrite_rules compile (line ∷ replacement ∷ lines) =
    let rest = rewrite_rules compile lines in
    if null (trim_space line) then rest else with_rule (compile (trim_space line)) replacement rest

unfoldable pub rewrite_url : List RewriteRule → Text → Text
rewrite_url [] url = url
rewrite_url (r ∷ rs) url = rewrite_url rs (r.pattern.replace_all_string url r.replacement)

unfoldable pub rewrite_entries : List RewriteRule → List BridgeEntry → List BridgeEntry
rewrite_entries rs [] = []
rewrite_entries rs (e ∷ es) = record e { url = rewrite_url rs e.url } ∷ rewrite_entries rs es

unfoldable pub apply_url_rewrite_rules : Compile → List BridgeEntry → Text → List BridgeEntry
apply_url_rewrite_rules compile entries rules =
    let s = trim_space rules in
    let lines = split b'\n' s in
    let compiled = rewrite_rules compile lines in
    if null s
    then entries
    else if not (length lines % 2 == 0)
    then entries
    else if null compiled
    then entries
    else rewrite_entries compiled entries

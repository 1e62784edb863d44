-- ===== src/Rules/Tests.antt =====
-- Rules of a feed at work, and the theorems applied to them.
use rssam.Common.{◌≡◌, refl, false, ◌||◌, none, some, List, [], ◌∷◌, if◌then◌else◌}
use rssam.Common.Text.{Text, codes, text_eq, has_prefix, trim_space, split}
use rssam.Rules.{
  Compile, BridgeEntry, patterns_of, join_patterns, compile_multiline_regex, rule_text,
  filter_entries, apply_feed_rules, rewrite_rules, rewrite_url, rewrite_entries,
  apply_url_rewrite_rules,
}

rules_run : Unit {0}
unfolding patterns_of join_patterns compile_multiline_regex rule_text filter_entries
    apply_feed_rules rewrite_rules rewrite_url rewrite_entries apply_url_rewrite_rules trim_space
    split has_prefix
rules_run = tt

-- "(?:ad)|(?:sale)" finds texts that begin so; "http:" is replaced as a prefix.
abbrev compile : Compile
compile p =
    if text_eq p (codes "(?:ad)|(?:sale)")
    then some (record {
      match_string = λ s. has_prefix s (codes "ad") || has_prefix s (codes "sale");
      replace_all_string = λ s r. s;
    })
    else if text_eq p (codes "x")
    then some (record {
      match_string = λ s. false;
      replace_all_string = λ s r. if text_eq s (codes "x") then r else s;
    })
    else none

abbrev entry : Text → BridgeEntry
entry title = record {
  title = title;
  url = codes "x";
  content = [];
  author = none;
  entry_hash = [];
}

abbrev entries : List BridgeEntry
entries = entry (codes "news") ∷ entry (codes "sale!") ∷ []

rule_runs :
    (apply_feed_rules compile entries (codes " ad \n\nsale") (codes "(")
      ≡ entry (codes "news") ∷ [])
    × (apply_url_rewrite_rules compile (entry [] ∷ []) (codes "x\ny")
        ≡ record (entry []) { url = codes "y" } ∷ [])
    × (apply_url_rewrite_rules compile (entry [] ∷ []) (codes "x\ny\nz") ≡ entry [] ∷ [])
unfolding rules_run
rule_runs = (refl, refl, refl)

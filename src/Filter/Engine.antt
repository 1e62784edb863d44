-- ===== src/Filter/Engine.antt =====
-- The state of internal/filter/engine.go, its cache of compiled filters, and the calls that use it.
-- `getCompiled` runs as one step; the JSON of a match's details stands for its `MatchResult`.
pub mod Transparency
use rssam.Common.{
  ℕ, Bool, true, false, not, ◌&&◌, ◌||◌, Option, none, some, List, [], ◌∷◌, null, keep_if,
  if◌then◌else◌, ◌==◌,
}
use rssam.Common.Int.{ℤ, negsuc, eq_ℤ}
use rssam.Common.Results.{Result, ok, err}
use rssam.Filter.{
  Regexp, Entry, Filter, FilterError, too_many_rules, query_rules_unsupported, Config,
}
use rssam.Filter.Compile.{CompiledFilter, compile_filter, compiled_with, too_many}
use rssam.Filter.Match.{MatchContext, MatchResult, match_compiled, matches_feed_scope}

-- `cacheKey`
pub record CacheKey : Type 0 where
  pub id : ℕ
  pub ver : ℤ

-- `time.Time{}.UnixNano()`, the version of a filter with a zero `UpdatedAt`.
abbrev pub zero_time_unix_nano : ℤ
zero_time_unix_nano = negsuc 6795364578871345151

unfoldable pub version : Filter → ℤ
version f = elim f.updated_at [ none ↦ zero_time_unix_nano | some t ↦ t ]

abbrev pub key_of : Filter → CacheKey
key_of f = record { id = f.id; ver = version f }

abbrev pub same_key : CacheKey → CacheKey → Bool
same_key a b = a.id == b.id && eq_ℤ a.ver b.ver

-- `Match`
pub record Match : Type 0 where
  pub filter_id : ℕ
  pub details : MatchResult

module _ (R : Regexp) where
  abbrev pub Cache : Type 0
  Cache = List (CacheKey × CompiledFilter R)

  unfoldable pub cached : CacheKey → Cache → Option (CompiledFilter R)
  cached k [] = none
  cached k ((j, cf) ∷ c) = if same_key j k then some cf else cached k c

  -- The loop that deletes the other versions of a filter.
  abbrev pub is_stale : CacheKey → CacheKey × CompiledFilter R → Bool
  is_stale k (j, cf) = j.id == k.id && not (eq_ℤ j.ver k.ver)

  unfoldable pub store : CacheKey → CompiledFilter R → Cache → Cache
  store k cf c = (k, cf) ∷ keep_if (λ e. not (is_stale k e)) c

  abbrev after_compile :
      Cache
      → CacheKey
      → Result FilterError (CompiledFilter R)
      → Cache × Result FilterError (CompiledFilter R)
  after_compile c k (ok cf) = (store k cf c, ok cf)
  after_compile c k (err e) = (c, err e)

  abbrev on_lookup :
      Config
      → Cache
      → Filter
      → Option (CompiledFilter R)
      → Cache × Result FilterError (CompiledFilter R)
  on_lookup cfg c f (some cf) = (c, ok cf)
  on_lookup cfg c f none = after_compile c (key_of f) (compile_filter R f cfg.max_regex_length)

  unfoldable pub get_compiled :
      Config → Cache → Filter → Cache × Result FilterError (CompiledFilter R)
  get_compiled cfg c f =
      if null f.rules
      then (c, ok (compiled_with R f []))
      else if too_many cfg f.rules
      then (c, err too_many_rules)
      else on_lookup cfg c f (cached (key_of f) c)

  -- What one filter contributes: nothing, a match, or in strict mode an error that ends the call.
  abbrev pub lacks_hits : MatchContext → Bool
  lacks_hits ctx = elim ctx.query_hits [ none ↦ true | some hits ↦ false ]

  abbrev pub matched_filter : Entry → MatchContext → CompiledFilter R → Filter → Option Match
  matched_filter entry ctx cf f =
      let mr = match_compiled R entry ctx cf in
      if mr.matched then some (record { filter_id = f.id; details = mr }) else none

  unfoldable pub filter_outcome :
      Entry
      → MatchContext
      → Bool
      → Filter
      → Result FilterError (CompiledFilter R)
      → Result FilterError (Option Match)
  filter_outcome entry ctx strict f (err e) = if strict then err e else ok none
  filter_outcome entry ctx strict f (ok cf) =
      if matches_feed_scope R cf ctx
      then (if strict && cf.has_query && lacks_hits ctx
          then err query_rules_unsupported
          else ok (matched_filter entry ctx cf f))
      else ok none

  abbrev pub prepend : Option Match → List Match → List Match
  prepend none ms = ms
  prepend (some m) ms = m ∷ ms

  -- The rest of the loop, after the outcome of one filter.
  abbrev pub continue_with :
      Result FilterError (Option Match)
      → Cache
      → Cache × Result FilterError (List Match)
      → Cache × Result FilterError (List Match)
  continue_with (err e) c rest = (c, err e)
  continue_with (ok m) c (c', ok ms) = (c', ok (prepend m ms))
  continue_with (ok m) c (c', err e) = (c', err e)

  unfoldable pub match_entry :
      Config
      → Entry
      → MatchContext
      → Bool
      → Cache
      → List Filter
      → Cache × Result FilterError (List Match)
  match_entry cfg entry ctx strict c [] = (c, ok [])
  match_entry cfg entry ctx strict c (f ∷ fs) =
      let (c', compiled) = get_compiled cfg c f in
      continue_with (filter_outcome entry ctx strict f compiled) c'
        (match_entry cfg entry ctx strict c' fs)

-- ===== src/Filter/Engine/Transparency.antt =====
-- The cache does not show in the results of the engine.
use rssam.Common.{
  ◌≡◌, refl, sym, Bool, true, Option, none, some, List, [], ◌∷◌, null, All, All-keep_if, arith,
  if◌then◌else◌, ==_iff, Bool-cases, inl, inr,
}
use rssam.Common.Int.{eq_ℤ_iff}
use rssam.Common.Results.{Result, ok, err}
use rssam.Filter.{Regexp, Entry, Filter, FilterError, Config, too_many_rules}
use rssam.Filter.Compile.{CompiledFilter, compile_filter, compiled_with, too_many}
use rssam.Filter.Match.{MatchContext}
use rssam.Filter.Engine.{
  CacheKey, Cache, Match, cached, store, key_of, same_key, get_compiled, match_entry,
  filter_outcome, continue_with, prepend, after_compile, on_lookup,
}

same_key-eq : (j k : CacheKey) → same_key j k ≡ true → j ≡ k
same_key-eq j k h = ground (arith, ==_iff j.id k.id, eq_ℤ_iff j.ver k.ver)

module _ (R : Regexp) (cfg : Config) where
  -- The engine without its cache.
  unfoldable pub compile_anew : Filter → Result FilterError (CompiledFilter R)
  compile_anew f =
      if null f.rules
      then ok (compiled_with R f [])
      else if too_many cfg f.rules
      then err too_many_rules
      else compile_filter R f cfg.max_regex_length

  abbrev pub sequence :
      Result FilterError (Option Match)
      → Result FilterError (List Match)
      → Result FilterError (List Match)
  sequence (err e) rest = err e
  sequence (ok m) (ok ms) = ok (prepend R m ms)
  sequence (ok m) (err e) = err e

  unfoldable pub match_anew :
      Entry → MatchContext → Bool → List Filter → Result FilterError (List Match)
  match_anew entry ctx strict [] = ok []
  match_anew entry ctx strict (f ∷ fs) =
      sequence (filter_outcome R entry ctx strict f (compile_anew f))
        (match_anew entry ctx strict fs)

  module _ (revision : CacheKey → Filter) where
    -- A cached filter is what its revision compiles to.
    abbrev pub IsSound : Cache R → Type 0
    IsSound c = All (λ e. compile_filter R (revision e.0) cfg.max_regex_length ≡ ok e.1) c

    cached_sound :
        (c : Cache R) (k : CacheKey) (cf : CompiledFilter R)
        → IsSound c
        → cached R k c ≡ some cf
        → compile_filter R (revision k) cfg.max_regex_length ≡ ok cf
    unfolding cached
    cached_sound [] k cf h e = cc
    cached_sound ((j, cf') ∷ c) k cf h e = elim (Bool-cases (same_key j k)) [
      | inl same ↦
          let key : j ≡ k = same_key-eq j k same in
          let value : cf' ≡ cf = cc (rw same at e) in rw (← key, ← value) h.0
      | inr other ↦ cached_sound c k cf h.1 (rw other at e)
    ]

    store-IsSound :
        (c : Cache R) (f : Filter) (r : Result FilterError (CompiledFilter R))
        → revision (key_of f) ≡ f
        → compile_filter R f cfg.max_regex_length ≡ r
        → IsSound c
        → IsSound (after_compile R c (key_of f) r).0 × ((after_compile R c (key_of f) r).1 ≡ r)
    unfolding store
    store-IsSound c f (ok cf) genuine e h = ((rw genuine e, All-keep_if _ _ c h), refl)
    store-IsSound c f (err x) genuine e h = (h, refl)

    on_lookup-IsSound :
        (c : Cache R) (f : Filter) (o : Option (CompiledFilter R))
        → revision (key_of f) ≡ f
        → cached R (key_of f) c ≡ o
        → IsSound c
        → IsSound (on_lookup R cfg c f o).0
          × ((on_lookup R cfg c f o).1 ≡ compile_filter R f cfg.max_regex_length)
    on_lookup-IsSound c f none genuine e h = store-IsSound c f _ genuine refl h
    on_lookup-IsSound c f (some cf) genuine e h =
        (h, sym (rw genuine at (cached_sound c (key_of f) cf h e)))

    get_compiled-IsSound :
        (c : Cache R) (f : Filter)
        → revision (key_of f) ≡ f
        → IsSound c
        → IsSound (get_compiled R cfg c f).0 × ((get_compiled R cfg c f).1 ≡ compile_anew f)
    unfolding get_compiled compile_anew
    get_compiled-IsSound c f genuine h = elim (Bool-cases (null f.rules)) [
      | inl empty ↦ rw empty (h, refl)
      | inr some_rules ↦ elim (Bool-cases (too_many cfg f.rules)) [
        | inl many ↦ rw (some_rules, many) (h, refl)
        | inr few ↦ rw (some_rules, few) (on_lookup-IsSound c f _ genuine refl h)
      ]
    ]

    continue_with-IsSound :
        (o : Result FilterError (Option Match)) (c : Cache R)
        (rest : Cache R × Result FilterError (List Match)) (spec : Result FilterError (List Match))
        → IsSound c
        → (rest.1 ≡ spec) × IsSound rest.0
        → ((continue_with R o c rest).1 ≡ sequence o spec) × IsSound (continue_with R o c rest).0
    continue_with-IsSound (err e) c rest spec h k = (refl, h)
    continue_with-IsSound (ok m) c (c', ok ms) spec h k = (rw (← k.0) refl, k.1)
    continue_with-IsSound (ok m) c (c', err e) spec h k = (rw (← k.0) refl, k.1)

    -- If the id and the version of a filter determine it, the matches and the errors of
    -- `matchEntry` are those of an engine that compiles every filter anew, whatever the calls
    -- before, strict or not; and a cache of faithful entries stays one.
    pub match_entry-eq-match_anew :
        (entry : Entry) (ctx : MatchContext) (strict : Bool) (c : Cache R) (fs : List Filter)
        → All (λ f. revision (key_of f) ≡ f) fs
        → IsSound c
        → ((match_entry R cfg entry ctx strict c fs).1 ≡ match_anew entry ctx strict fs)
          × IsSound (match_entry R cfg entry ctx strict c fs).0
    unfolding match_entry match_anew
    match_entry-eq-match_anew entry ctx strict c [] g h = (refl, h)
    match_entry-eq-match_anew entry ctx strict c (f ∷ fs) g h =
        let (sound, same) = get_compiled-IsSound c f g.0 h in
        rw (← same) (
          continue_with-IsSound (filter_outcome R entry ctx strict f (get_compiled R cfg c f).1) _ _
            _ sound
            (match_entry-eq-match_anew entry ctx strict (get_compiled R cfg c f).0 fs g.1 sound))

-- ===== src/Config/HotReload/Caching.antt =====
-- When the cache answers.
use fish_async_task.Prelude.{
  ℕ, ◌+◌, ◌≤◌, ◌≡◌, refl, ◌∙◌, sym, ap, String, true, false, Option, none, some, List, [], ◌∷◌,
  ◌++◌, arith, ltb,
}
use mathlib.Core.List.{append-nil, append_assoc}
use fish_async_task.Prelude.Dict.{Dict}
use fish_async_task.Prelude.Dict
use fish_async_task.Config.HotReload.{
  Parsed, returns, raises, HotReloadConfig, or_default, store_parsed, note_call, get_cached,
  get_registered, get,
}

-- What a reload leaves in the cache for a key.
abbrev pub reloaded :
    {V : Type 0}
    → Parsed V
    → (default : Option V) → (cached : Option (Option V)) → Option (Option V)
reloaded (returns v) default cached = some (or_default v default)
reloaded raises default cached = cached

-- What a reload makes of the cache at a key, given the default of its parser, if it has one.
abbrev pub reloaded_at :
    {V : Type 0} → Parsed V → (default cached : Option (Option V)) → Option (Option V)
reloaded_at p none cached = cached
reloaded_at p (some default) cached = reloaded p default cached

module _ {V : Type 0} where
  -- Some calls of `get`: the time, the key, and what the parser would do.
  abbrev pub get_all_of : List (ℕ × (String × Parsed V)) → HotReloadConfig V → HotReloadConfig V
  get_all_of [] c = c
  get_all_of ((now, (k, p)) ∷ gs) c = get_all_of gs (get now k true p c).1

  -- All of them are of registered keys, and none is within the interval after the last reload.
  abbrev pub AllLate : HotReloadConfig V → List (ℕ × (String × Parsed V)) → Type 0
  AllLate c [] = Unit
  AllLate c ((now, (k, p)) ∷ gs) =
      (Dict.has k c.config_parsers ≡ true)
      × (c.last_reload + c.reload_interval ≤ now)
      × AllLate c gs

  abbrev pub keys_of : List (ℕ × (String × Parsed V)) → List String
  keys_of [] = []
  keys_of ((now, (k, p)) ∷ gs) = k ∷ keys_of gs

  -- What a late `get` leaves.
  record CalledParser (k : String) (c c' : HotReloadConfig V) : Type 0 where
    same_parsers : c'.config_parsers ≡ c.config_parsers
    same_reload : c'.last_reload ≡ c.last_reload
    same_interval : c'.reload_interval ≡ c.reload_interval
    calls : c'.parser_calls ≡ c.parser_calls ++ (k ∷ [])

  store_parsed-CalledParser :
      (k : String) (default : Option V) (c : HotReloadConfig V) (p : Parsed V)
      → CalledParser k c (store_parsed k default (note_call k c) p).1
  store_parsed-CalledParser k default c (returns v) = record {
    same_parsers = refl;
    same_reload = refl;
    same_interval = refl;
    calls = refl;
  }
  store_parsed-CalledParser k default c raises = record {
    same_parsers = refl;
    same_reload = refl;
    same_interval = refl;
    calls = refl;
  }

  get_cached-CalledParser :
      (now : ℕ) (k : String) (default : Option V) (p : Parsed V) (c : HotReloadConfig V)
      (cached : Option (Option V))
      → c.last_reload + c.reload_interval ≤ now
      → CalledParser k c (get_cached now k true default p c cached).1
  get_cached-CalledParser now k default p c none late = store_parsed-CalledParser k default c p
  get_cached-CalledParser now k default p c (some v) late =
      let is_late : ltb now (c.last_reload + c.reload_interval) ≡ false = ground arith in
      rw is_late (store_parsed-CalledParser k default c p)

  get-CalledParser :
      (now : ℕ) (k : String) (p : Parsed V) (c : HotReloadConfig V) (o : Option (Option V))
      → Dict.has k c.config_parsers ≡ true
      → Dict.lookup k c.config_parsers ≡ o
      → c.last_reload + c.reload_interval ≤ now
      → CalledParser k c (get_registered now k true p c o).1
  get-CalledParser now k p c none there e late =
      absurd (ground (arith, Dict.has-eq_lookup k c.config_parsers))
  get-CalledParser now k p c (some default) there e late =
      get_cached-CalledParser now k default p c (Dict.lookup k c.config_cache) late

  AllLate-ext :
      (gs : List (ℕ × (String × Parsed V))) (c c' : HotReloadConfig V)
      → c'.config_parsers ≡ c.config_parsers
      → c'.last_reload ≡ c.last_reload
      → c'.reload_interval ≡ c.reload_interval
      → AllLate c gs
      → AllLate c' gs
  AllLate-ext [] c c' e f g h = tt
  AllLate-ext ((now, (k, p)) ∷ gs) c c' e f g h =
      (ap (Dict.has k) e ∙ h.0, rw (f, g) h.1, AllLate-ext gs c c' e f g h.2)

  -- When the last reload lies at least the interval before each of some calls of `get`, and all are
  -- of registered keys, every one of them calls its parser, however often a key is asked for: `get`
  -- fills the cache and does not count as a reload.
  pub get_all_of-calls :
      (gs : List (ℕ × (String × Parsed V))) (c : HotReloadConfig V)
      → AllLate c gs
      → (get_all_of gs c).parser_calls ≡ c.parser_calls ++ keys_of gs
  unfolding get
  get_all_of-calls [] c h = sym (append-nil c.parser_calls)
  get_all_of-calls ((now, (k, p)) ∷ gs) c h =
      let r = get-CalledParser now k p c (Dict.lookup k c.config_parsers) h.0 refl h.1 in
      let c' = (get now k true p c).1 in
      get_all_of-calls gs c' (AllLate-ext gs c c' r.same_parsers r.same_reload r.same_interval h.2)
      ∙ ap (λ l. l ++ keys_of gs) r.calls
      ∙ append_assoc c.parser_calls (k ∷ []) (keys_of gs)

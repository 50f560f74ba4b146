-- ===== src/Config/HotReload.antt =====
-- `HotReloadConfig` of fish_async_task/config.py. Each method holds the lock and is one step. What
-- a parser does when it is called at that step is an argument; `parser_calls` is the list of the
-- keys whose parsers were called, in that order.
pub mod Caching
use fish_async_task.Prelude.{
  ℕ, zero, suc, ◌+◌, String, Bool, true, false, ◌&&◌, Option, none, some, List, [], ◌∷◌, ◌++◌, ltb,
  if◌then◌else◌,
}
use fish_async_task.Prelude.Dict.{Dict}
use fish_async_task.Prelude.Dict

-- A parser returns a value, which may be None, or raises.
pub data Parsed (V : Type 0) : Type 0 where
  returns : Option V → Parsed V
  raises : Parsed V

-- The parsers are given by their defaults.
pub record HotReloadConfig (V : Type 0) : Type 0 where
  pub reload_interval : ℕ
  pub last_reload : ℕ
  pub config_cache : Dict (Option V)
  pub config_parsers : Dict (Option V)
  pub parser_calls : List String

-- `value`, and the default where it is None.
abbrev pub or_default : {V : Type 0} → Option V → Option V → Option V
or_default none default = default
or_default (some v) default = some v

module _ {V : Type 0} where
  -- `__init__`
  unfoldable pub new : (reload_interval : ℕ) → HotReloadConfig V
  new reload_interval = record {
    reload_interval = reload_interval;
    last_reload = 0;
    config_cache = [];
    config_parsers = [];
    parser_calls = [];
  }

  unfoldable pub register_config :
      String → (default : Option V) → HotReloadConfig V → HotReloadConfig V
  register_config k default c = record c { config_parsers = Dict.insert k default c.config_parsers }

  -- What `get` does with the outcome of the parser.
  abbrev pub store_parsed :
      String → (default : Option V) → HotReloadConfig V → Parsed V → Option V × HotReloadConfig V
  store_parsed k default c (returns v) = (
    or_default v default,
    record c { config_cache = Dict.insert k (or_default v default) c.config_cache },
  )
  store_parsed k default c raises = (default, c)

  -- The call of the parser.
  abbrev pub note_call : String → HotReloadConfig V → HotReloadConfig V
  note_call k c = record c { parser_calls = c.parser_calls ++ (k ∷ []) }

  -- `get` of a registered key, given what the cache holds for it.
  abbrev pub get_cached :
      (now : ℕ)
      → String
      → (use_cache : Bool) → (default : Option V) → Parsed V
      → HotReloadConfig V
      → Option (Option V)
      → Option V × HotReloadConfig V
  get_cached now k use_cache default p c none = store_parsed k default (note_call k c) p
  get_cached now k use_cache default p c (some v) =
      if use_cache && ltb now (c.last_reload + c.reload_interval)
      then (v, c)
      else store_parsed k default (note_call k c) p

  -- `if key not in self._config_parsers` and what follows.
  abbrev pub get_registered :
      (now : ℕ)
      → String
      → (use_cache : Bool) → Parsed V
      → HotReloadConfig V
      → Option (Option V)
      → Option V × HotReloadConfig V
  get_registered now k use_cache p c none = (none, c)
  get_registered now k use_cache p c (some default) =
      get_cached now k use_cache default p c (Dict.lookup k c.config_cache)

  unfoldable pub get :
      (now : ℕ)
      → String
      → (use_cache : Bool) → Parsed V
      → HotReloadConfig V
      → Option V × HotReloadConfig V
  get now k use_cache p c = get_registered now k use_cache p c (Dict.lookup k c.config_parsers)

  -- The body of the loop of `reload`, given the outcome of the parser.
  abbrev pub reload_one :
      String → (default : Option V) → ℕ × Dict (Option V) → Parsed V → ℕ × Dict (Option V)
  reload_one k default (n, cache) (returns v) = (suc n, Dict.insert k (or_default v default) cache)
  reload_one k default (n, cache) raises = (n, cache)

  -- The loop of `reload` over the parsers.
  unfoldable pub reload_each :
      (parse : String → Parsed V) → Dict (Option V) → ℕ × Dict (Option V) → ℕ × Dict (Option V)
  reload_each parse [] r = r
  reload_each parse ((k, default) ∷ d) r = reload_each parse d (reload_one k default r (parse k))

  unfoldable pub reload :
      (now : ℕ) → (parse : String → Parsed V) → HotReloadConfig V → ℕ × HotReloadConfig V
  unfolding reload_each
  reload now parse c =
      let (n, cache) = reload_each parse c.config_parsers (0, c.config_cache) in
      (
        n,
        record c {
          config_cache = cache;
          last_reload = now;
          parser_calls = c.parser_calls ++ Dict.keys c.config_parsers;
        },
      )

  unfoldable pub get_all : HotReloadConfig V → Dict (Option V)
  get_all c = c.config_cache

  unfoldable pub clear_cache : HotReloadConfig V → HotReloadConfig V
  clear_cache c = record c { config_cache = []; last_reload = 0 }

-- The wrapper of `validate_config` around what the function returned.
module _ {V : Type 0} (lt equal : V → V → Bool) where
  -- `value in allowed_values`
  abbrev pub is_in : List V → V → Bool
  is_in [] v = false
  is_in (w ∷ ws) v = if equal w v then true else is_in ws v

  abbrev pub is_allowed : Option (List V) → V → Bool
  is_allowed none v = true
  is_allowed (some ws) v = is_in ws v

  abbrev pub is_below : V → Option V → Bool
  is_below v none = false
  is_below v (some low) = lt v low

  abbrev pub is_above : V → Option V → Bool
  is_above v none = false
  is_above v (some high) = lt high v

  unfoldable pub validate :
      (min_value max_value default : Option V)
      → (allowed_values : Option (List V)) → Option V
      → Option V
  validate min_value max_value default allowed_values none = default
  validate min_value max_value default allowed_values (some v) =
      if is_allowed allowed_values v
      then (if is_below v min_value
          then default
          else (if is_above v max_value then default else some v))
      else default

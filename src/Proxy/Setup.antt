-- ===== src/Proxy/Setup.antt =====
-- The options: internal/types/options.go, NewHandler in pkg/proxy/proxy.go, and the cleaner that
-- internal/cache/cache.go starts with them. time.ParseDuration is a parameter.
pub mod Idle
use rclone_vfs.Prelude.{
  ℕ, ◌*◌, ◌≡◌, refl, ap, sym, ◌∙◌, inl, inr, Bool, true, false, Option, none, some, List, [], ◌∷◌,
  if◌then◌else◌, ℤ, leb_ℤ, arith, Bool-cases, Option-cases,
}
use rclone_vfs.Prelude.{pos, negsuc}
use mathlib.Core.Option.{some-injective}
use rclone_vfs.Item.{ItemError, State, Os}
use rclone_vfs.Cache.{Cache, clean}
use rclone_vfs.Cache
use rclone_vfs.Proxy.Size.{parse_size}

-- types.Options, but for the directory and the logger.
pub record EngineOptions : Type 0 where
  pub chunk_size : ℤ
  pub chunk_size_limit : ℤ
  pub chunk_streams : ℤ
  pub cache_max_age : ℤ
  pub cache_max_size : ℤ
  pub cache_min_free_space : ℤ
  pub cache_poll_interval : ℤ
  pub write_back : ℤ
  pub read_ahead : ℤ
  pub fast_fingerprint : Bool
  pub handle_caching : ℤ

-- types.Opt
abbrev pub default_options : EngineOptions
default_options = record {
  chunk_size = pos (128 * 1048576);
  chunk_size_limit = negsuc 0;
  chunk_streams = pos 0;
  cache_max_age = pos 3600000000000;
  cache_max_size = negsuc 0;
  cache_min_free_space = negsuc 0;
  cache_poll_interval = pos 60000000000;
  write_back = pos 5000000000;
  read_ahead = pos 0;
  fast_fingerprint = false;
  handle_caching = pos 5000000000;
}

-- A new types.Options.
abbrev pub zero_options : EngineOptions
zero_options = record {
  chunk_size = pos 0;
  chunk_size_limit = pos 0;
  chunk_streams = pos 0;
  cache_max_age = pos 0;
  cache_max_size = pos 0;
  cache_min_free_space = pos 0;
  cache_poll_interval = pos 0;
  write_back = pos 0;
  read_ahead = pos 0;
  fast_fingerprint = false;
  handle_caching = pos 0;
}

-- Options.Init, which sets the logger.
pub init_options : EngineOptions → EngineOptions
init_options opt = opt

-- proxy.Options, as far as the engine's options come from it.
pub record ProxyOptions : Type 0 where
  pub cache_max_age : List ℕ
  pub cache_max_size : List ℕ
  pub cache_chunk_size : List ℕ
  pub cache_chunk_streams : ℤ

-- A size that NewHandler sets if it is given and can be read.
pub set_size : List ℕ → EngineOptions → (ℤ → EngineOptions) → EngineOptions
set_size [] opt set = opt
set_size (c ∷ s) opt set = elim (parse_size (c ∷ s)) [ none ↦ opt | some n ↦ set n ]

-- NewHandler from the duration on.
pub set_sizes : ProxyOptions → EngineOptions → EngineOptions
unfolding set_size init_options
set_sizes given aged =
    let sized = set_size given.cache_max_size aged (λ n. record aged { cache_max_size = n }) in
    let chunked = set_size given.cache_chunk_size sized (λ n. record sized { chunk_size = n }) in
    init_options (record chunked { chunk_streams = given.cache_chunk_streams })

-- NewHandler up to the duration: none is the error of one that cannot be read.
pub aged_options : (List ℕ → Option ℤ) → List ℕ → Option EngineOptions
aged_options parse_duration [] = some zero_options
aged_options parse_duration (c ∷ s) = elim (parse_duration (c ∷ s)) [
  | none ↦ none
  | some d ↦ some (record zero_options { cache_max_age = d })
]

-- The engine's options that NewHandler makes.
unfoldable pub engine_options : (List ℕ → Option ℤ) → ProxyOptions → Option EngineOptions
unfolding set_sizes aged_options
engine_options parse_duration given = elim (aged_options parse_duration given.cache_max_age) [
  | none ↦ none
  | some aged ↦ some (set_sizes given aged)
]

-- A turn of the cleaner: what it finds of the world, and whether it was kicked.
pub record Turn : Type 0 where
  pub sort : (ℕ → State) → List ℕ → List ℕ
  pub world : ℕ → Os
  pub no_space : ItemError → Bool
  pub free : List (ℕ × ℕ) → Option ℤ
  pub root_exists : Bool
  pub kicked : Bool

abbrev pub cleaner_options : EngineOptions → Cache.Options
cleaner_options opt = record {
  cache_max_age = opt.cache_max_age;
  cache_max_size = opt.cache_max_size;
  cache_min_free_space = opt.cache_min_free_space;
}

clean_turn : EngineOptions → Cache → Turn → Cache
clean_turn opt c t =
    clean t.sort t.free t.no_space (cleaner_options opt) t.world c t.root_exists t.kicked

-- The loop of the cleaner over its turns.
clean_turns : EngineOptions → Cache → List Turn → Cache
unfolding clean_turn
clean_turns opt c [] = c
clean_turns opt c (t ∷ turns) = clean_turns opt (clean_turn opt c t) turns

-- Cache.cleaner up to the end of its context, with the turns that it takes.
pub cleaner : EngineOptions → Cache → List Turn → Cache
unfolding clean_turns
cleaner opt c turns = if leb_ℤ opt.cache_poll_interval (pos 0) then c else clean_turns opt c turns

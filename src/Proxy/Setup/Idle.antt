-- ===== src/Proxy/Setup/Idle.antt =====
-- The cleaner of an engine that NewHandler makes.
use rclone_vfs.Prelude.{
  ℕ, ◌≡◌, refl, ap, sym, ◌∙◌, inl, inr, Option, none, some, List, [], ◌∷◌, ℤ, arith, Option-cases,
}
use rclone_vfs.Prelude.{pos}
use mathlib.Core.Option.{some-injective}
use rclone_vfs.Cache.{Cache}
use rclone_vfs.Proxy.Size.{parse_size}
use rclone_vfs.Proxy.Setup.{
  EngineOptions, zero_options, init_options, ProxyOptions, set_size, set_sizes, aged_options,
  engine_options, Turn, cleaner,
}

set_size-same :
    (s : List ℕ) (opt : EngineOptions) (set : ℤ → EngineOptions)
    → ((n : ℤ) → (set n).cache_poll_interval ≡ opt.cache_poll_interval)
    → (set_size s opt set).cache_poll_interval ≡ opt.cache_poll_interval
unfolding set_size
set_size-same [] opt set h = refl
set_size-same (c ∷ s) opt set h = elim (Option-cases (parse_size (c ∷ s))) [
  | inl e ↦ rw (e, set_size) refl
  | inr (n, e) ↦ rw (e, set_size) (h n)
]

set_sizes-same :
    (given : ProxyOptions) (aged : EngineOptions)
    → (set_sizes given aged).cache_poll_interval ≡ aged.cache_poll_interval
unfolding set_sizes init_options
set_sizes-same given aged =
    let sized = set_size given.cache_max_size aged (λ n. record aged { cache_max_size = n }) in
    set_size-same given.cache_chunk_size sized (λ n. record sized { chunk_size = n }) (λ n. refl)
    ∙ set_size-same given.cache_max_size aged (λ n. record aged { cache_max_size = n }) (λ n. refl)

aged_options-poll :
    (parse_duration : List ℕ → Option ℤ) (s : List ℕ) (aged : EngineOptions)
    → aged_options parse_duration s ≡ some aged
    → aged.cache_poll_interval ≡ pos 0
unfolding aged_options
aged_options-poll parse_duration [] aged made =
    ap (λ x. x.cache_poll_interval) (sym (some-injective zero_options aged made))
aged_options-poll parse_duration (c ∷ s) aged made = by_duration (parse_duration (c ∷ s)) made
  where
    by_duration :
        (o : Option ℤ)
        → (let out : Option EngineOptions = elim o [
          | none ↦ none
          | some d ↦ some (record zero_options { cache_max_age = d })
        ] in
            out ≡ some aged)
        → aged.cache_poll_interval ≡ pos 0
    by_duration none made = ground arith
    by_duration (some d) made =
        ap (λ x. x.cache_poll_interval)
          (sym (some-injective (record zero_options { cache_max_age = d }) aged made))

engine_options-poll :
    (parse_duration : List ℕ → Option ℤ) (given : ProxyOptions) (opt : EngineOptions)
    → engine_options parse_duration given ≡ some opt
    → opt.cache_poll_interval ≡ pos 0
unfolding engine_options
engine_options-poll parse_duration given opt made =
    by_aged (aged_options parse_duration given.cache_max_age) refl made
  where
    by_aged :
        (o : Option EngineOptions)
        → aged_options parse_duration given.cache_max_age ≡ o
        → (let out : Option EngineOptions = elim o [
          | none ↦ none
          | some aged ↦ some (set_sizes given aged)
        ] in
            out ≡ some opt)
        → opt.cache_poll_interval ≡ pos 0
    by_aged none a made = ground arith
    by_aged (some aged) a made =
        ap (λ x. x.cache_poll_interval) (sym (some-injective (set_sizes given aged) opt made))
        ∙ set_sizes-same given aged
        ∙ aged_options-poll parse_duration given.cache_max_age aged a

-- Whatever options the proxy is given: the engine that NewHandler makes with them, if it makes one, has
-- a cleaner that takes no turn, however long the program runs, so that the cache stays as it is.
pub cleaner-engine_options :
    (parse_duration : List ℕ → Option ℤ) (given : ProxyOptions) (opt : EngineOptions) (c : Cache)
    (turns : List Turn)
    → engine_options parse_duration given ≡ some opt
    → cleaner opt c turns ≡ c
unfolding cleaner
cleaner-engine_options parse_duration given opt c turns made =
    let off = engine_options-poll parse_duration given opt made in rw off refl

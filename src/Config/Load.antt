-- ===== src/Config/Load.antt =====
-- internal/config/config.go: `Load`. The YAML decoder is given, as what it makes of the tree that it is to
-- fill, and so are the file and the environment.
use nw_lb_go.Base.{
  ◌≡◌, ◌↔◌, ◌∙◌, refl, ap, subst, if◌then◌else◌, if_elim, false, ℤ, List, [], ◌∷◌, Option, none,
  some, Str, str_eq, pos,
}
use nw_lb_go.Config.Text.{trim_space}
use nw_lb_go.Config.Types.{Float, Backend, Config}
use nw_lb_go.Config.Default.{default}
use nw_lb_go.Config.Env.{EnvError, apply_env, IsBlank, apply_env-blank}
use nw_lb_go.Config.Derived.{apply_derived_defaults, derive_backends, derive_limit, burst_for}
use nw_lb_go.Config.Validate.{Problem, validate}
use nw_lb_go.Config.Valid.{IsValid, AreUsable}
use nw_lb_go.Config.Accepts.{validate_iff, default-IsValid}
use nw_lb_go.Config.Raw.{
  RawConfig, DurationError, health_interval, health_timeout, breaker_window, breaker_open_timeout,
  proxy_shutdown_grace, new_raw_config, to_duration, raw_to_config,
}

pub data LoadResult : Type 0 where
  loaded : Config → LoadResult
  no_path : LoadResult
  cannot_open : LoadResult
  cannot_parse : LoadResult
  bad_durations : List DurationError → LoadResult
  bad_environment : List EnvError → LoadResult
  invalid : List Problem → LoadResult

-- The steps of `Load` from the last one back.
unfoldable pub validated : Config → List Problem → LoadResult
validated c [] = loaded c
validated c (p ∷ ps) = invalid (p ∷ ps)

unfoldable pub with_env : Config → List EnvError → LoadResult
unfolding validated apply_derived_defaults validate
with_env c [] = let d = apply_derived_defaults c in validated d (validate d)
with_env c (e ∷ es) = bad_environment (e ∷ es)

-- The defaults with some backends, and bursts that are not specified.
abbrev unfilled : List Backend → Config
unfolding default
unfilled bs = record default {
  backends = bs;
  rate_limit = record (default.rate_limit) { burst = pos 0; per_client_burst = pos 0 };
}

with_env-unfilled :
    (bs : List Backend)
    → AreUsable (derive_backends bs)
    → with_env (unfilled bs) [] ≡ loaded (record default { backends = derive_backends bs })
unfolding with_env validated
with_env-unfilled bs u =
    ap (λ d. validated d (validate d)) (derived bs)
    ∙ ap (validated (record default { backends = derive_backends bs }))
        (default-IsValid (derive_backends bs) u)
  where
    derived :
        (bs : List Backend)
        → apply_derived_defaults (unfilled bs) ≡ record default { backends = derive_backends bs }
    derived bs = unfold apply_derived_defaults derive_limit burst_for default in refl

module _ (duration_string : ℤ → Str) (parse_duration : Str → Option ℤ)
    (parse_float : Str → Option Float) (lookup : Str → Option Str) where
  unfoldable pub with_durations : Config → List DurationError → LoadResult
  unfolding with_env apply_env
  with_durations c [] = let r = apply_env parse_float lookup c in with_env (r.0) (r.1)
  with_durations c (e ∷ es) = bad_durations (e ∷ es)

  unfoldable pub decoded : Option RawConfig → LoadResult
  unfolding with_durations raw_to_config
  decoded none = cannot_parse
  decoded (some r) =
      let c = raw_to_config duration_string parse_duration r in with_durations (c.0) (c.1)

  unfoldable pub opened : Option (RawConfig → Option RawConfig) → LoadResult
  unfolding decoded new_raw_config default
  opened none = cannot_open
  opened (some decode) = decoded (decode (new_raw_config duration_string parse_duration default))

  -- No file stands for one that cannot be opened.
  unfoldable pub load : Str → Option (RawConfig → Option RawConfig) → LoadResult
  unfolding opened
  load path file = if str_eq (trim_space path) [] then no_path else opened file

  abbrev Sound : LoadResult → Type 0
  Sound (loaded c) = IsValid c
  Sound _ = Unit

  validated-Sound : (c : Config) (ps : List Problem) → validate c ≡ ps → Sound (validated c ps)
  unfolding validated
  validated-Sound c [] e = (validate_iff c).0 e
  validated-Sound c (p ∷ ps) e = tt

  with_env-Sound : (c : Config) (es : List EnvError) → Sound (with_env c es)
  unfolding with_env
  with_env-Sound c [] =
      validated-Sound (apply_derived_defaults c) (validate (apply_derived_defaults c)) refl
  with_env-Sound c (e ∷ es) = tt

  with_durations-Sound : (c : Config) (es : List DurationError) → Sound (with_durations c es)
  unfolding with_durations
  with_durations-Sound c [] = let r = apply_env parse_float lookup c in with_env-Sound (r.0) (r.1)
  with_durations-Sound c (e ∷ es) = tt

  load-Sound : (path : Str) (file : Option (RawConfig → Option RawConfig)) → Sound (load path file)
  unfolding load
  load-Sound path file = if_elim Sound (str_eq (trim_space path) []) (λ e. tt) (λ e. read file)
    where
      parsed : (r : Option RawConfig) → Sound (decoded r)
      parsed none = unfold decoded in tt
      parsed (some r) =
          let c = raw_to_config duration_string parse_duration r in
          unfold decoded in with_durations-Sound (c.0) (c.1)

      read : (file : Option (RawConfig → Option RawConfig)) → Sound (opened file)
      read none = unfold opened in tt
      read (some decode) =
          unfold opened in parsed (decode (new_raw_config duration_string parse_duration default))

  -- Whatever the file, the environment and the parsers say, a configuration that `Load` returns is valid.
  pub load-IsValid :
      (path : Str) (file : Option (RawConfig → Option RawConfig)) (c : Config)
      → load path file ≡ loaded c
      → IsValid c
  load-IsValid path file c e = subst Sound e (load-Sound path file)

  module _ (reads_back : (d : ℤ) → parse_duration (trim_space (duration_string d)) ≡ some d) where
    to_duration-string :
        (field : Str → DurationError) (d : ℤ)
        → to_duration duration_string parse_duration field (duration_string d) ≡ (d, [])
    unfolding to_duration
    to_duration-string field d = rw (to_duration, reads_back d) refl

    -- What becomes of the tree in which the file has set the backends and nothing else.
    raw_to_config-default :
        (bs : List Backend)
        → raw_to_config duration_string parse_duration
            (record (new_raw_config duration_string parse_duration default) { backends = bs })
          ≡ (unfilled bs, [])
    unfolding raw_to_config new_raw_config default
    raw_to_config-default bs =
        rw
          (
            to_duration-string health_interval default.health.interval,
            to_duration-string health_timeout default.health.timeout,
            to_duration-string breaker_window default.circuit_breaker.window,
            to_duration-string breaker_open_timeout default.circuit_breaker.open_timeout,
            to_duration-string proxy_shutdown_grace default.proxy.shutdown_grace,
          )
          refl

    load_usable :
        (path : Str) (bs : List Backend)
        → str_eq (trim_space path) [] ≡ false
        → AreUsable (derive_backends bs)
        → ((key : Str) → IsBlank parse_float lookup key)
        → load path (some (λ raw. some (record raw { backends = bs })))
          ≡ loaded (record default { backends = derive_backends bs })
    unfolding load
    load_usable path bs p u blank =
        let c : Config = unfilled bs in
        ap (λ b. if b then no_path else opened (some (λ raw. some (record raw { backends = bs }))))
          p
        ∙ (unfold opened decoded in
            ap (λ (c : Config × List DurationError). with_durations (c.0) (c.1))
              (raw_to_config-default bs)
            ∙ (unfold with_durations in
                ap (λ (r : Config × List EnvError). with_env (r.0) (r.1))
                  (apply_env-blank parse_float lookup c blank)
                ∙ with_env-unfilled bs u))

    -- A file that sets the backends and nothing else, with no variable set, gives the defaults with these
    -- backends, trimmed and weighted, exactly when they are then usable: at least one, each with an id,
    -- an address and a positive weight, and no id or address twice. No key that is absent loses its default on the way through the tree of the
    -- decoder, and the bursts come out as the default ones.
    pub load_backends :
        (path : Str) (bs : List Backend)
        → str_eq (trim_space path) [] ≡ false
        → ((key : Str) → IsBlank parse_float lookup key)
        → (load path (some (λ raw. some (record raw { backends = bs })))
            ≡ loaded (record default { backends = derive_backends bs }))
          ↔ AreUsable (derive_backends bs)
    load_backends path bs p blank =
        let c : Config = record default { backends = derive_backends bs } in
        (
          λ e. (load-IsValid path (some (λ raw. some (record raw { backends = bs }))) c e).usable,
          λ u. load_usable path bs p u blank,
        )

-- ===== src/Config/Raw.antt =====
-- internal/config/config.go: the tree that the YAML decoder fills, `newRawConfig` and `config`.
use nw_lb_go.Base.{ℤ, pos, Bool, List, [], ◌∷◌, ◌++◌, Option, none, some, Str}
use nw_lb_go.Config.Text.{trim_space}
use nw_lb_go.Config.Types.{Float, Backend, Routing, Logging, Config}

-- As the structs of the configuration, with durations as text.
pub record RawHealth : Type 0 where
  pub interval : Str
  pub timeout : Str
  pub rise : ℤ
  pub fall : ℤ
  pub service : Str

pub record RawRateLimit : Type 0 where
  pub enabled : Bool
  pub rps : Float
  pub burst : ℤ
  pub per_client : Bool
  pub per_client_rps : Float
  pub per_client_burst : ℤ

pub record RawCircuit : Type 0 where
  pub enabled : Bool
  pub window : Str
  pub buckets : ℤ
  pub min_requests : ℤ
  pub failure_ratio : Float
  pub open_timeout : Str
  pub half_open_max : ℤ

pub record RawProxy : Type 0 where
  pub max_recv_msg_size : ℤ
  pub max_send_msg_size : ℤ
  pub shutdown_grace : Str

pub record RawConfig : Type 0 where
  pub listen : Str
  pub admin_listen : Str
  pub backends : List Backend
  pub routing : Routing
  pub health : RawHealth
  pub rate_limit : RawRateLimit
  pub circuit_breaker : RawCircuit
  pub logging : Logging
  pub proxy : RawProxy

-- The fields whose text is not a duration.
pub data DurationError : Type 0 where
  health_interval health_timeout breaker_window breaker_open_timeout proxy_shutdown_grace :
      Str → DurationError

-- `Duration.String` and `time.ParseDuration` are given.
module _ (duration_string : ℤ → Str) (parse_duration : Str → Option ℤ) where
  -- The bursts stay at zero, which stands for "not specified".
  unfoldable pub new_raw_config : Config → RawConfig
  new_raw_config base = record {
    listen = base.listen;
    admin_listen = base.admin_listen;
    backends = base.backends;
    routing = base.routing;
    health = record {
      interval = duration_string base.health.interval;
      timeout = duration_string base.health.timeout;
      rise = base.health.rise;
      fall = base.health.fall;
      service = base.health.service;
    };
    rate_limit = record {
      enabled = base.rate_limit.enabled;
      rps = base.rate_limit.rps;
      burst = pos 0;
      per_client = base.rate_limit.per_client;
      per_client_rps = base.rate_limit.per_client_rps;
      per_client_burst = pos 0;
    };
    circuit_breaker = record {
      enabled = base.circuit_breaker.enabled;
      window = duration_string base.circuit_breaker.window;
      buckets = base.circuit_breaker.buckets;
      min_requests = base.circuit_breaker.min_requests;
      failure_ratio = base.circuit_breaker.failure_ratio;
      open_timeout = duration_string base.circuit_breaker.open_timeout;
      half_open_max = base.circuit_breaker.half_open_max;
    };
    logging = base.logging;
    proxy = record {
      max_recv_msg_size = base.proxy.max_recv_msg_size;
      max_send_msg_size = base.proxy.max_send_msg_size;
      shutdown_grace = duration_string base.proxy.shutdown_grace;
    };
  }

  -- One of the durations: the field stays zero when its text is not one.
  unfoldable pub to_duration : (Str → DurationError) → Str → ℤ × List DurationError
  to_duration field src = elim (parse_duration (trim_space src)) [
    | none ↦ (pos 0, field src ∷ [])
    | some d ↦ (d, [])
  ]

  unfoldable pub raw_to_config : RawConfig → Config × List DurationError
  unfolding to_duration
  raw_to_config r =
      let (interval, e1) = to_duration health_interval r.health.interval in
      let (timeout, e2) = to_duration health_timeout r.health.timeout in
      let (window, e3) = to_duration breaker_window r.circuit_breaker.window in
      let (open_timeout, e4) = to_duration breaker_open_timeout r.circuit_breaker.open_timeout in
      let (grace, e5) = to_duration proxy_shutdown_grace r.proxy.shutdown_grace in
      (
        record {
          listen = r.listen;
          admin_listen = r.admin_listen;
          backends = r.backends;
          routing = r.routing;
          health = record {
            interval = interval;
            timeout = timeout;
            rise = r.health.rise;
            fall = r.health.fall;
            service = r.health.service;
          };
          rate_limit = record {
            enabled = r.rate_limit.enabled;
            rps = r.rate_limit.rps;
            burst = r.rate_limit.burst;
            per_client = r.rate_limit.per_client;
            per_client_rps = r.rate_limit.per_client_rps;
            per_client_burst = r.rate_limit.per_client_burst;
          };
          circuit_breaker = record {
            enabled = r.circuit_breaker.enabled;
            window = window;
            buckets = r.circuit_breaker.buckets;
            min_requests = r.circuit_breaker.min_requests;
            failure_ratio = r.circuit_breaker.failure_ratio;
            open_timeout = open_timeout;
            half_open_max = r.circuit_breaker.half_open_max;
          };
          logging = r.logging;
          proxy = record {
            max_recv_msg_size = r.proxy.max_recv_msg_size;
            max_send_msg_size = r.proxy.max_send_msg_size;
            shutdown_grace = grace;
          };
        },
        e1 ++ (e2 ++ (e3 ++ (e4 ++ e5))),
      )

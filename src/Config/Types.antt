-- ===== src/Config/Types.antt =====
-- internal/config/config.go: the configuration and its parts.
use nw_lb_go.Base.{ℕ, suc, ℤ, pos, Bool, true, false, leb_ℤ, ltb_ℤ, List, Str, codes}

-- A float64: `decimal n d` is n / (d + 1).
pub data Float : Type 0 where
  nan : Float
  infinity : Bool → Float
  decimal : ℤ → ℕ → Float

-- `x > 0`, `x < 0`, `x <= 1` and `x > 1`; every comparison with NaN is false. `infinity true` is +Inf.
abbrev pub above_zero : Float → Bool
above_zero nan = false
above_zero (infinity up) = up
above_zero (decimal n d) = ltb_ℤ (pos 0) n

abbrev pub below_zero : Float → Bool
below_zero nan = false
below_zero (infinity true) = false
below_zero (infinity false) = true
below_zero (decimal n d) = ltb_ℤ n (pos 0)

abbrev pub at_most_one : Float → Bool
at_most_one nan = false
at_most_one (infinity true) = false
at_most_one (infinity false) = true
at_most_one (decimal n d) = leb_ℤ n (pos (suc d))

abbrev pub above_one : Float → Bool
above_one nan = false
above_one (infinity up) = up
above_one (decimal n d) = ltb_ℤ (pos (suc d)) n

pub record Backend : Type 0 where
  pub id : Str
  pub addr : Str
  pub weight : ℤ

pub record Routing : Type 0 where
  pub hash_header : Str
  pub virtual_nodes : ℤ
  pub max_attempts : ℤ
  pub retry_policy : Str

pub record Health : Type 0 where
  pub interval : ℤ
  pub timeout : ℤ
  pub rise : ℤ
  pub fall : ℤ
  pub service : Str

pub record RateLimit : Type 0 where
  pub enabled : Bool
  pub rps : Float
  pub burst : ℤ
  pub per_client : Bool
  pub per_client_rps : Float
  pub per_client_burst : ℤ

pub record CircuitBreaker : Type 0 where
  pub enabled : Bool
  pub window : ℤ
  pub buckets : ℤ
  pub min_requests : ℤ
  pub failure_ratio : Float
  pub open_timeout : ℤ
  pub half_open_max : ℤ

pub record Logging : Type 0 where
  pub level : Str
  pub format : Str
  pub sample_rate : Float

pub record Proxy : Type 0 where
  pub max_recv_msg_size : ℤ
  pub max_send_msg_size : ℤ
  pub shutdown_grace : ℤ

pub record Config : Type 0 where
  pub listen : Str
  pub admin_listen : Str
  pub backends : List Backend
  pub routing : Routing
  pub health : Health
  pub rate_limit : RateLimit
  pub circuit_breaker : CircuitBreaker
  pub logging : Logging
  pub proxy : Proxy

abbrev pub retry_connect_failure : Str
retry_connect_failure = codes "connect-failure"

abbrev pub retry_unavailable : Str
retry_unavailable = codes "unavailable"

abbrev pub retry_none : Str
retry_none = codes "none"

abbrev pub default_weight : ℤ
default_weight = pos 100

-- ===== src/Config/Default.antt =====
-- internal/config/config.go: `Default`.
use nw_lb_go.Base.{pos, false, [], codes}
use nw_lb_go.Config.Types.{decimal, Config, retry_connect_failure}

-- Durations are in nanoseconds.
unfoldable pub default : Config
default = record {
  listen = codes ":8080";
  admin_listen = codes ":9090";
  backends = [];
  routing = record {
    hash_header = codes "x-session-id";
    virtual_nodes = pos 200;
    max_attempts = pos 3;
    retry_policy = retry_connect_failure;
  };
  health = record {
    interval = pos 1_000_000_000;
    timeout = pos 500_000_000;
    rise = pos 2;
    fall = pos 3;
    service = [];
  };
  rate_limit = record {
    enabled = false;
    rps = decimal (pos 50000) 0;
    burst = pos 100000;
    per_client = false;
    per_client_rps = decimal (pos 5000) 0;
    per_client_burst = pos 10000;
  };
  circuit_breaker = record {
    enabled = false;
    window = pos 10_000_000_000;
    buckets = pos 10;
    min_requests = pos 20;
    failure_ratio = decimal (pos 1) 1;
    open_timeout = pos 5_000_000_000;
    half_open_max = pos 5;
  };
  logging = record { level = codes "info"; format = codes "json"; sample_rate = decimal (pos 1) 0 };
  proxy = record {
    max_recv_msg_size = pos 16_777_216;
    max_send_msg_size = pos 16_777_216;
    shutdown_grace = pos 10_000_000_000;
  };
}

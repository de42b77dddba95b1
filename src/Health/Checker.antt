-- ===== src/Health/Checker.antt =====
-- internal/health/health.go: `New`, `CheckOnce`, `probe` and `record`. The health service's reply is
-- an argument; the logger is left out, and calls of the metrics and of the pool are a list of effects.
use nw_lb_go.Base.{
  ℕ, ◌+◌, ℤ, pos, leb_ℤ, ltb_ℤ, Bool, true, false, not, if◌then◌else◌, List, [], ◌∷◌, ◌++◌, Option,
  none, some, Str, str_eq,
}
use nw_lb_go.Config.Types.{Health}
use nw_lb_go.Pool.Backend.{State, state_healthy, state_unhealthy, same_state, Backend, set_state}

abbrev default_interval : ℤ
default_interval = pos 1_000_000_000

abbrev default_timeout : ℤ
default_timeout = pos 500_000_000

-- `has_pool` and `has_metrics`: whether `p` and `m` are set. `unimplemented` holds the ids that the
-- checker has warned about.
pub record Checker : Type 0 where
  pub interval : ℤ
  pub timeout : ℤ
  pub rise : ℤ
  pub fall : ℤ
  pub has_pool : Bool
  pub has_metrics : Bool
  pub unimplemented : List Str

unfoldable pub new : Bool → Health → Bool → Checker
new has_pool cfg has_metrics = record {
  interval = if leb_ℤ cfg.interval (pos 0) then default_interval else cfg.interval;
  timeout = if leb_ℤ cfg.timeout (pos 0) then default_timeout else cfg.timeout;
  rise = if ltb_ℤ cfg.rise (pos 1) then pos 1 else cfg.rise;
  fall = if ltb_ℤ cfg.fall (pos 1) then pos 1 else cfg.fall;
  has_pool = has_pool;
  has_metrics = has_metrics;
  unimplemented = [];
}

-- A status code of gRPC, and what a health response says.
pub data Code : Type 0 where
  code_unimplemented : Code
  code_other : ℕ → Code

pub data Serving : Type 0 where
  serving : Serving
  not_serving : ℕ → Serving

pub data Reply : Type 0 where
  failed : Code → Reply
  answered : Serving → Reply

pub data CheckError : Type 0 where
  nil_backend : CheckError
  no_connection : Str → CheckError
  rpc_error : Code → CheckError
  reports : Str → ℕ → CheckError

unfoldable pub warned : Str → List Str → Bool
warned id [] = false
warned id (x ∷ xs) = if str_eq x id then true else warned id xs

-- `LoadOrStore`, after which the warning is logged at most once for each backend.
unfoldable pub warn_unimplemented : Checker → Str → Checker
unfolding warned
warn_unimplemented c id =
    if warned id c.unimplemented then c else record c { unimplemented = id ∷ c.unimplemented }

-- `backend` is none for a nil pointer, and `connected` is whether its `Conn()` is not nil.
unfoldable pub check_once :
    Checker → Option Str → Bool → Reply → Checker × State × Option CheckError
unfolding warn_unimplemented
check_once c none connected reply = (c, state_unhealthy, some nil_backend)
check_once c (some id) false reply = (c, state_unhealthy, some (no_connection id))
check_once c (some id) true (failed code_unimplemented) =
    (warn_unimplemented c id, state_healthy, some (rpc_error code_unimplemented))
check_once c (some id) true (failed (code_other n)) =
    (c, state_unhealthy, some (rpc_error (code_other n)))
check_once c (some id) true (answered serving) = (c, state_healthy, none)
check_once c (some id) true (answered (not_serving n)) = (c, state_unhealthy, some (reports id n))

pub record Counters : Type 0 where
  pub success : ℕ
  pub failure : ℕ

-- What `record` and `probe` tell the metrics and the pool.
pub data Effect : Type 0 where
  observe_health_check : Bool → Effect
  set_backend_health : Bool → Effect
  notify_change : Effect

unfoldable pub is_healthy : State → Bool
is_healthy state_healthy = true
is_healthy _ = false

-- The end of `record`, once a threshold is reached.
unfoldable pub publish : Checker → Backend → State → Backend × List Effect
unfolding set_state is_healthy same_state
publish c b target =
    let (after, changed) = set_state b target in
    let told = if c.has_metrics then set_backend_health (is_healthy target) ∷ [] else [] in
    let woken = if c.has_pool then notify_change ∷ [] else [] in
    if not changed then (after, []) else (after, told ++ woken)

-- The clamped increment.
unfoldable pub bump : ℕ → ℤ → ℕ
bump n limit = if ltb_ℤ (pos n) limit then n + 1 else n

-- `record`: the counters are clamped at the threshold.
unfoldable pub record_probe :
    Checker → Backend → Counters → State → Backend × Counters × List Effect
unfolding publish is_healthy bump
record_probe c b st s =
    let success = bump st.success c.rise in
    let failure = bump st.failure c.fall in
    let good : Counters = record { success = success; failure = 0 } in
    let bad : Counters = record { success = 0; failure = failure } in
    let (up, up_told) = publish c b state_healthy in
    let (down, down_told) = publish c b state_unhealthy in
    if is_healthy s
    then (if ltb_ℤ (pos success) c.rise then (b, good, []) else (up, good, up_told))
    else (if ltb_ℤ (pos failure) c.fall then (b, bad, []) else (down, bad, down_told))

-- `probe` on a backend with a connection.
unfoldable pub probe :
    Checker → Backend → Counters → Reply → Checker × Backend × Counters × List Effect
unfolding check_once record_probe is_healthy
probe c b st reply =
    let (c', s, err) = check_once c (some b.id) true reply in
    let seen = if c.has_metrics then observe_health_check (is_healthy s) ∷ [] else [] in
    let (b', st', told) = record_probe c' b st s in (c', b', st', seen ++ told)

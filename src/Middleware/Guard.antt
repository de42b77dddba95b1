-- ===== src/Middleware/Guard.antt =====
-- internal/middleware/circuitbreaker.go and ratelimit.go: the interceptors that may refuse a call.
use nw_lb_go.Base.{ℕ, Bool, true, false, if◌then◌else◌, List, [], Option, none, some, Str}
use nw_lb_go.Circuit.Types.{Breaker, Probe}
use nw_lb_go.Circuit.Breaker.{Call, admit, probe_success, probe_failure}
use nw_lb_go.Circuit.Registry.{Registry, Handle, get}
use nw_lb_go.Pool.Backend.{breaker_of, put_breaker}
use nw_lb_go.Ratelimit.Limiter.{Bucket, Limiter, per_client, allow}

-- The status codes that the interceptors tell apart.
pub data Code : Type 0 where
  unavailable deadline_exceeded internal resource_exhausted unknown : Code
  other_code : ℕ → Code

-- `status.Code(err)`; `none` is a nil error.
unfoldable pub is_failure : Option Code → Bool
is_failure none = false
is_failure (some (other_code n)) = false
is_failure (some _) = true

-- How a handler ends.
pub data Outcome : Type 0 where
  returned : Option Code → Outcome
  panicked : Outcome

-- `CircuitBreak` up to its call of the handler, which it makes only if the call is admitted.
unfoldable pub admit_call : Registry → Str → ℕ → Registry × Handle × Probe × Bool
admit_call reg method now =
    let (r, h) = get reg method now in
    let (b, probe, admitted, calls) = admit (breaker_of r h) now in
    (put_breaker r h b, h, probe, admitted)

-- Its deferred function. `b` is the breaker as the other calls have left it meanwhile.
unfoldable pub settle : Breaker → Probe → Outcome → ℕ → Breaker × List Call
unfolding is_failure
settle b probe panicked now = probe_failure b probe now
settle b probe (returned err) now =
    if is_failure err then probe_failure b probe now else probe_success b probe now

-- `RateLimit`: whether the handler is called. The client's key costs a lookup, and is empty unless the
-- limiter asks for it.
unfoldable pub limit_call :
    (bucket : Bucket) → (Str → ℕ) → Limiter bucket → Str → ℕ → Limiter bucket × Bool
limit_call bucket sum64 l client_key now =
    allow bucket sum64 l (if per_client bucket l then client_key else []) now

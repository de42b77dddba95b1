-- ===== src/Pool/Backend.antt =====
-- internal/pool/pool.go: `State`, and the methods of `Backend`.
use nw_lb_go.Base.{
  ℕ, ℤ, Bool, true, false, not, if◌then◌else◌, List, [], ◌∷◌, none, some, Str, str_eq, codes,
}
use nw_lb_go.Circuit.Types.{Breaker, Probe}
use nw_lb_go.Circuit.Breaker.{Call, ready, unattributed, admit}
use nw_lb_go.Circuit.Registry.{Registry, Handle, named, overflowed, resolve_handle}

pub data State : Type 0 where
  state_unknown state_healthy state_unhealthy : State

unfoldable pub state_string : State → Str
state_string state_unknown = codes "unknown"
state_string state_healthy = codes "healthy"
state_string state_unhealthy = codes "unhealthy"

unfoldable pub same_state : State → State → Bool
same_state state_unknown state_unknown = true
same_state state_healthy state_healthy = true
same_state state_unhealthy state_unhealthy = true
same_state _ _ = false

-- `conn` is the number of the connection that `dial` returned, and `breaker` leads to one of the
-- registry's breakers.
pub record Backend : Type 0 where
  pub id : Str
  pub addr : Str
  pub weight : ℤ
  pub conn : ℕ
  pub breaker : Handle
  pub breaker_enabled : Bool
  pub state : State

-- The backend afterwards, and whether its state changed.
unfoldable pub set_state : Backend → State → Backend × Bool
unfolding same_state
set_state b s = (record b { state = s }, not (same_state b.state s))

unfoldable pub healthy : Backend → Bool
unfolding same_state
healthy b = same_state b.state state_healthy

replace : Str → Breaker → List (Str × Breaker) → List (Str × Breaker)
replace k b [] = []
replace k b ((j, c) ∷ m) = if str_eq j k then (j, b) ∷ m else (j, c) ∷ replace k b m

-- The registry after a method has changed the breaker behind a handle.
unfoldable pub put_breaker : Registry → Handle → Breaker → Registry
unfolding replace
put_breaker r (named k) b = record r { breakers = replace k b r.breakers }
put_breaker r overflowed b = record r { overflow = b }

-- The breaker behind a handle from `Get` is never missing; the overflow breaker stands in for it.
unfoldable pub breaker_of : Registry → Handle → Breaker
breaker_of r h = elim (resolve_handle r h) [ none ↦ r.overflow | some b ↦ b ]

unfoldable pub available : Registry → Backend → ℕ → Registry × Bool × List Call
unfolding healthy
available r b now =
    let (k, allowed, calls) = ready (breaker_of r b.breaker) now in
    if not (healthy b)
    then (r, false, [])
    else if not b.breaker_enabled
    then (r, true, [])
    else (put_breaker r b.breaker k, allowed, calls)

unfoldable pub reserve : Registry → Backend → ℕ → Registry × Probe × Bool × List Call
unfolding healthy
reserve r b now =
    let k = breaker_of r b.breaker in
    let (j, probe, allowed, calls) = admit k now in
    if not (healthy b)
    then (r, unattributed k, false, [])
    else if not b.breaker_enabled
    then (r, unattributed k, true, [])
    else (put_breaker r b.breaker j, probe, allowed, calls)

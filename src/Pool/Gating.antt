-- ===== src/Pool/Gating.antt =====
-- internal/pool/pool.go: `Reserve` against `Available`.
use nw_lb_go.Base.{ℕ, ◌≡◌, true, false, if◌then◌else◌, arith}
use nw_lb_go.Circuit.Breaker.{ready}
use nw_lb_go.Circuit.Registry.{Registry}
use nw_lb_go.Circuit.Foretell.{admit-ready}
use nw_lb_go.Pool.Backend.{Backend, healthy, available, reserve, breaker_of}

-- `Reserve` lets an attempt through exactly when `Available` would: never on a backend that is not
-- healthy, always on a healthy one whose breaker is switched off, and else as the breaker says.
pub reserve-available :
    (r : Registry) (b : Backend) (now : ℕ)
    → ((reserve r b now).2 ≡ (available r b now).1)
      × ((available r b now).1 ≡ (
          if healthy b
          then (if b.breaker_enabled then (ready (breaker_of r b.breaker) now).1 else true)
          else false))
unfolding reserve available
reserve-available r b now = ground (arith, admit-ready (breaker_of r b.breaker) now)

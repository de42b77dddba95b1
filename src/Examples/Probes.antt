-- ===== src/Examples/Probes.antt =====
-- internal/health/health.go on a concrete history of probes.
use nw_lb_go.Base.{◌≡◌, pos, pos_part, true, if◌then◌else◌, List, [], ◌∷◌, codes, arith}
use Prim.Native.Nat.{min, max}
use nw_lb_go.Circuit.Registry.{named}
use nw_lb_go.Config.Types.{Health}
use nw_lb_go.Pool.Backend.{State, state_healthy, state_unhealthy, Backend}
use nw_lb_go.Health.Checker.{new, is_healthy}
use nw_lb_go.Health.Damping.{run, successes, failures, damped, flips, notifications, run_is_damped}
use nw_lb_go.Health.Steady.{NeverDown}

abbrev served : Backend
served = record {
  id = codes "a";
  addr = codes "a:1";
  weight = pos 100;
  conn = 0;
  breaker = named (codes "a");
  breaker_enabled = true;
  state = state_healthy;
}

-- Two in a row bring it up, three take it down.
abbrev patient : Health
patient = record { interval = pos 10; timeout = pos 5; rise = pos 2; fall = pos 3; service = [] }

abbrev flapping : List State
flapping =
    state_unhealthy ∷ state_unhealthy ∷ state_healthy ∷ state_unhealthy ∷ state_unhealthy ∷ []

run_is_damped_example :
    let r = run (new true patient true) served flapping in
    let rise = max 1 (pos_part patient.rise) in
    let fall = max 1 (pos_part patient.fall) in
    (r.0.state ≡ damped rise fall served.state flapping)
    × (notifications r.2 ≡ (if true then flips rise fall served.state flapping else 0))
    × (r.1.success ≡ min rise (successes flapping))
    × (r.1.failure ≡ min fall (failures flapping))
run_is_damped_example = run_is_damped true patient true served flapping

flapping-NeverDown : NeverDown 3 flapping
unfolding is_healthy
flapping-NeverDown = (omega arith, (omega arith, (omega arith, (omega arith, (omega arith, tt)))))

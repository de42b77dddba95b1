-- ===== src/Health/Steady.antt =====
-- internal/health/health.go, `record`: failures that are never `Fall` in a row move nothing.
use nw_lb_go.Base.{ℕ, ◌<◌, ◌≡◌, refl, ◌∙◌, pos_part, Bool, List, [], ◌∷◌, arith}
use Prim.Native.Nat.{max}
use nw_lb_go.Config.Types.{Health}
use nw_lb_go.Pool.Backend.{State, state_healthy, Backend}
use nw_lb_go.Health.Checker.{new}
use nw_lb_go.Health.Damping.{
  run, failures, damped, flips, notifications, same_state_refl, run_is_damped,
}

-- No run of failures in a history, however it goes on or breaks off, is as long as `fall`.
abbrev pub NeverDown : ℕ → List State → Type 0
NeverDown fall [] = Unit {0}
NeverDown fall (s ∷ h) = (failures (s ∷ h) < fall) × NeverDown fall h

damped_of_NeverDown :
    (rise fall : ℕ) (h : List State)
    → NeverDown fall h
    → damped rise fall state_healthy h ≡ state_healthy
damped_of_NeverDown rise fall [] n = refl
damped_of_NeverDown rise fall (s ∷ h) n = ground (arith, n.0, damped_of_NeverDown rise fall h n.1)

flips_of_NeverDown :
    (rise fall : ℕ) (h : List State) → NeverDown fall h → flips rise fall state_healthy h ≡ 0
flips_of_NeverDown rise fall [] n = refl
flips_of_NeverDown rise fall (s ∷ h) n =
    let before = damped_of_NeverDown rise fall h n.1 in
    let after = damped_of_NeverDown rise fall (s ∷ h) n in
    ground (arith, before, after, same_state_refl state_healthy, flips_of_NeverDown rise fall h n.1)

-- A healthy backend whose probes never fail `Fall` times in a row (a setting of at least 1) stays
-- healthy and causes no notification, however many probes of it fail altogether.
pub run_ignores_flapping :
    (has_pool : Bool) (cfg : Health) (has_metrics : Bool) (b : Backend) (h : List State)
    → b.state ≡ state_healthy
    → NeverDown (max 1 (pos_part cfg.fall)) h
    → let r = run (new has_pool cfg has_metrics) b h in
      (r.0.state ≡ state_healthy) × (notifications r.2 ≡ 0)
run_ignores_flapping has_pool cfg has_metrics b h e n =
    let d = run_is_damped has_pool cfg has_metrics b h in
    let rise = max 1 (pos_part cfg.rise) in
    let fall = max 1 (pos_part cfg.fall) in
    (
      d.0 ∙ rw e (damped_of_NeverDown rise fall h n),
      d.1 ∙ rw (e, flips_of_NeverDown rise fall h n) (ground arith),
    )

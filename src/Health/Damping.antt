-- ===== src/Health/Damping.antt =====
-- internal/health/health.go, `record`: what its counters and its hysteresis amount to over a whole
-- history of probes, the newest first.
use nw_lb_go.Base.{
  ℕ, suc, ◌+◌, ◌<◌, ◌≡◌, refl, sym, ◌∙◌, ap, ℤ, pos, negsuc, pos_part, neg_part, ltb_ℤ, leb, Bool,
  true, not, if◌then◌else◌, List, [], ◌∷◌, ◌++◌, inl, inr, Bool-cases, arith,
}
use Prim.Native.Nat.{min, max}
use nw_lb_go.Config.Types.{Health}
use nw_lb_go.Pool.Backend.{
  State, state_unknown, state_healthy, state_unhealthy, same_state, Backend, set_state,
}
use nw_lb_go.Health.Checker.{
  Checker, new, Counters, Effect, observe_health_check, set_backend_health, notify_change,
  is_healthy, publish, bump, record_probe,
}

-- The probes of a history, each with its own mapped state, recorded in order from zero counters on.
unfoldable pub run : Checker → Backend → List State → Backend × Counters × List Effect
run c b [] = (b, record { success = 0; failure = 0 }, [])
run c b (s ∷ h) =
    let before = run c b h in
    let after = record_probe c before.0 before.1 s in (after.0, after.1, before.2 ++ after.2)

-- How many of the latest probes in a row were successes, and how many failures.
abbrev pub successes : List State → ℕ
successes [] = 0
successes (s ∷ h) = if is_healthy s then suc (successes h) else 0

abbrev pub failures : List State → ℕ
failures [] = 0
failures (s ∷ h) = if is_healthy s then 0 else suc (failures h)

-- The state by the latest probe that ended a run of `rise` successes or of `fall` failures.
abbrev pub damped : ℕ → ℕ → State → List State → State
damped rise fall s0 [] = s0
damped rise fall s0 (s ∷ h) =
    if leb rise (successes (s ∷ h))
    then state_healthy
    else if leb fall (failures (s ∷ h))
    then state_unhealthy
    else damped rise fall s0 h

-- How often that state changed.
abbrev pub flips : ℕ → ℕ → State → List State → ℕ
flips rise fall s0 [] = 0
flips rise fall s0 (s ∷ h) =
    flips rise fall s0 h
    + (if same_state (damped rise fall s0 h) (damped rise fall s0 (s ∷ h)) then 0 else 1)

abbrev pub notifications : List Effect → ℕ
notifications [] = 0
notifications (notify_change ∷ es) = suc (notifications es)
notifications (observe_health_check ok ∷ es) = notifications es
notifications (set_backend_health ok ∷ es) = notifications es

notifications-append :
    (xs ys : List Effect) → notifications (xs ++ ys) ≡ notifications xs + notifications ys
notifications-append [] ys = omega arith
notifications-append (notify_change ∷ xs) ys = omega (arith, notifications-append xs ys)
notifications-append (observe_health_check ok ∷ xs) ys = notifications-append xs ys
notifications-append (set_backend_health ok ∷ xs) ys = notifications-append xs ys

-- What the run has come to after a history.
record Tracks (c : Checker) (b : Backend) (h : List State) (r : Backend × Counters × List Effect)
    : Type 0 where
  good : r.1.success ≡ min (pos_part c.rise) (successes h)
  bad : r.1.failure ≡ min (pos_part c.fall) (failures h)
  is : r.0.state ≡ damped (pos_part c.rise) (pos_part c.fall) b.state h
  told :
      notifications r.2
      ≡ (if c.has_pool then flips (pos_part c.rise) (pos_part c.fall) b.state h else 0)

publish_state : (c : Checker) (b : Backend) (s : State) → (publish c b s).0.state ≡ s
unfolding publish set_state
publish_state c b s = elim (Bool-cases (same_state b.state s)) [
  | inl e ↦ rw e refl
  | inr e ↦ rw e refl
]

publish_told :
    (c : Checker) (b : Backend) (s : State)
    → notifications (publish c b s).1
      ≡ (if c.has_pool then (if same_state b.state s then 0 else 1) else 0)
unfolding publish set_state
publish_told c b s = elim (Bool-cases (same_state b.state s)) [
  | inl e ↦ elim (Bool-cases c.has_pool) [ inl p ↦ rw (e, p) refl | inr p ↦ rw (e, p) refl ]
  | inr e ↦ elim (Bool-cases c.has_pool) [
    | inl p ↦ elim (Bool-cases c.has_metrics) [
      | inl m ↦ rw (e, p, m) refl
      | inr m ↦ rw (e, p, m) refl
    ]
    | inr p ↦ elim (Bool-cases c.has_metrics) [
      | inl m ↦ rw (e, p, m) refl
      | inr m ↦ rw (e, p, m) refl
    ]
  ]
]

no_neg_part : (z : ℤ) → 0 < pos_part z → neg_part z ≡ 0
no_neg_part (pos n) h = refl
no_neg_part (negsuc n) h = elim h [ ]

pub same_state_refl : (s : State) → same_state s s ≡ true
unfolding same_state
same_state_refl state_unknown = refl
same_state_refl state_healthy = refl
same_state_refl state_unhealthy = refl

-- A clamped counter goes on as the clamped length of the run, and is below its threshold as that is.
bump-min :
    (limit : ℤ) (n k : ℕ)
    → 0 < pos_part limit
    → n ≡ min (pos_part limit) k
    → (bump n limit ≡ min (pos_part limit) (suc k))
      × (ltb_ℤ (pos (bump n limit)) limit ≡ not (leb (pos_part limit) (suc k)))
unfolding bump
bump-min limit n k h e = (ground (arith, no_neg_part limit h), ground (arith, no_neg_part limit h))

module _ (c : Checker) (b : Backend) (rise_pos : 0 < pos_part c.rise)
    (fall_pos : 0 < pos_part c.fall) where
  -- Where a threshold is reached the state moves to the target, and is told if that is new.
  publish-Tracks :
      (s target : State) (h : List State) (r : Backend × Counters × List Effect) (n : Counters)
      → Tracks c b h r
      → n.success ≡ min (pos_part c.rise) (successes (s ∷ h))
      → n.failure ≡ min (pos_part c.fall) (failures (s ∷ h))
      → damped (pos_part c.rise) (pos_part c.fall) b.state (s ∷ h) ≡ target
      → Tracks c b (s ∷ h) ((publish c r.0 target).0, n, r.2 ++ (publish c r.0 target).1)
  publish-Tracks s target h r n t good bad is = record {
    good = good;
    bad = bad;
    is = publish_state c r.0 target ∙ sym is;
    told =
        notifications-append r.2 (publish c r.0 target).1
        ∙ rw (is, publish_told c r.0 target, t.told, t.is) (ground arith);
  }

  -- Below it nothing but the counter moves.
  quiet-Tracks :
      (s : State) (h : List State) (r : Backend × Counters × List Effect) (n : Counters)
      → Tracks c b h r
      → n.success ≡ min (pos_part c.rise) (successes (s ∷ h))
      → n.failure ≡ min (pos_part c.fall) (failures (s ∷ h))
      → damped (pos_part c.rise) (pos_part c.fall) b.state (s ∷ h)
        ≡ damped (pos_part c.rise) (pos_part c.fall) b.state h
      → Tracks c b (s ∷ h) (r.0, n, r.2 ++ [])
  quiet-Tracks s h r n t good bad is = record {
    good = good;
    bad = bad;
    is = t.is ∙ sym is;
    told =
        notifications-append r.2 []
        ∙ rw (is, t.told, same_state_refl (damped (pos_part c.rise) (pos_part c.fall) b.state h))
            (ground arith);
  }

  record_probe-Tracks :
      (s : State) (h : List State) (r : Backend × Counters × List Effect)
      → Tracks c b h r
      → let after = record_probe c r.0 r.1 s in
        Tracks c b (s ∷ h) (after.0, after.1, r.2 ++ after.2)
  unfolding record_probe
  record_probe-Tracks s h r t =
      let up_count = bump-min c.rise r.1.success (successes h) rise_pos t.good in
      let down_count = bump-min c.fall r.1.failure (failures h) fall_pos t.bad in
      let good : Counters = record { success = bump r.1.success c.rise; failure = 0 } in
      let bad : Counters = record { success = 0; failure = bump r.1.failure c.fall } in
      elim (Bool-cases (is_healthy s)) [
        | inl up ↦ elim (Bool-cases (leb (pos_part c.rise) (suc (successes h)))) [
          | inl reached ↦
              rw (up, record_probe, up_count.1 ∙ ap not reached)
                (publish-Tracks s state_healthy h r good t (rw up (up_count.0))
                  (rw up (omega arith)) (rw (up, reached) refl))
          | inr short ↦
              rw (up, record_probe, up_count.1 ∙ ap not short)
                (quiet-Tracks s h r good t (rw up (up_count.0)) (rw up (omega arith))
                  (ground arith))
        ]
        | inr down ↦ elim (Bool-cases (leb (pos_part c.fall) (suc (failures h)))) [
          | inl reached ↦
              rw (down, record_probe, down_count.1 ∙ ap not reached)
                (publish-Tracks s state_unhealthy h r bad t (rw down (omega arith))
                  (rw down (down_count.0)) (ground arith))
          | inr short ↦
              rw (down, record_probe, down_count.1 ∙ ap not short)
                (quiet-Tracks s h r bad t (rw down (omega arith)) (rw down (down_count.0))
                  (ground arith))
        ]
      ]

  run-Tracks : (h : List State) → Tracks c b h (run c b h)
  unfolding run
  run-Tracks [] = record { good = omega arith; bad = omega arith; is = refl; told = ground arith }
  run-Tracks (s ∷ h) = record_probe-Tracks s h (run c b h) (run-Tracks h)

-- The thresholds that `New` gives a checker.
new-rise :
    (has_pool : Bool) (cfg : Health) (has_metrics : Bool)
    → pos_part (new has_pool cfg has_metrics).rise ≡ max 1 (pos_part cfg.rise)
unfolding new
new-rise has_pool cfg has_metrics = ground arith

new-fall :
    (has_pool : Bool) (cfg : Health) (has_metrics : Bool)
    → pos_part (new has_pool cfg has_metrics).fall ≡ max 1 (pos_part cfg.fall)
unfolding new
new-fall has_pool cfg has_metrics = ground arith

module _ (has_pool : Bool) (cfg : Health) (has_metrics : Bool) (b : Backend) (h : List State) where
  new-Tracks : Tracks (new has_pool cfg has_metrics) b h (run (new has_pool cfg has_metrics) b h)
  new-Tracks =
      run-Tracks (new has_pool cfg has_metrics) b
        (rw (new-rise has_pool cfg has_metrics) (omega arith))
        (rw (new-fall has_pool cfg has_metrics) (omega arith)) h

  -- For any configuration and any history of probes, a checker from `New` leaves the backend in the
  -- state of the latest probe that ended a run of `Rise` successes (healthy) or `Fall` failures
  -- (unhealthy), each at least 1, and in its first state if none did. It has notified the pool, if it
  -- has one, as often as that state changed, and its two counters are the lengths of the runs that are
  -- going on, up to the thresholds.
  pub run_is_damped :
      let r = run (new has_pool cfg has_metrics) b h in
      let rise = max 1 (pos_part cfg.rise) in
      let fall = max 1 (pos_part cfg.fall) in
      (r.0.state ≡ damped rise fall b.state h)
      × (notifications r.2 ≡ (if has_pool then flips rise fall b.state h else 0))
      × (r.1.success ≡ min rise (successes h))
      × (r.1.failure ≡ min fall (failures h))
  unfolding new
  run_is_damped =
      let t = new-Tracks in
      let e = new-rise has_pool cfg has_metrics in
      let f = new-fall has_pool cfg has_metrics in rw (← e, ← f) (t.is, t.told, t.good, t.bad)

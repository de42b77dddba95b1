-- ===== src/Circuit/Verdicts.antt =====
-- internal/circuit/circuit.go: `record` in each state of the breaker.
use nw_lb_go.Base.{
  ℕ, ◌+◌, ◌*◌, ◌≤◌, ◌≡◌, ◌⊎◌, refl, List, [], Bool, true, false, arith, if◌then◌else◌, ◌&&◌, ◌↔◌,
  pos, pos_part, ◌∙◌, leb_ℤ, sub_ℕ,
}
use nw_lb_go.Circuit.Types.{
  State, state_closed, state_open, state_half_open, Transition, Breaker, Probe, Bucket,
}
use nw_lb_go.Circuit.Window.{to_nat, count_in, advance_locked, clear_locked, count_locked}
use nw_lb_go.Circuit.Frame.{
  advance_locked-Frame, count_locked-Frame, refresh_cases, Frame, Frame-trans,
}
use nw_lb_go.Circuit.Breaker.{
  refresh_locked, judge, record_outcome, is_current, set_state_locked, reaches, counts, fire,
}
use nw_lb_go.Circuit.Episodes.{belongs}

-- The breaker that `record` judges.
abbrev judged : Breaker → Bool → ℕ → Breaker
judged b failed now = count_locked (refresh_locked b now []).0 failed

refresh_closed :
    (b : Breaker) (now : ℕ)
    → b.state ≡ state_closed
    → refresh_locked b now [] ≡ (advance_locked b now, [])
refresh_closed b now e =
    refresh_cases (λ r. r ≡ (advance_locked b now, [])) b now [] (λ _. refl) (λ x. ground arith)

refresh_half_open_eq :
    (b : Breaker) (now : ℕ)
    → b.state ≡ state_half_open
    → refresh_locked b now [] ≡ (advance_locked b now, [])
refresh_half_open_eq b now e =
    refresh_cases (λ r. r ≡ (advance_locked b now, [])) b now [] (λ _. refl) (λ x. ground arith)

refresh_open_eq :
    (b : Breaker) (now : ℕ)
    → b.state ≡ state_open
    → leb_ℤ b.settings.open_timeout (sub_ℕ now b.opened_at) ≡ false
    → refresh_locked b now [] ≡ (advance_locked b now, [])
refresh_open_eq b now e h =
    refresh_cases (λ r. r ≡ (advance_locked b now, [])) b now [] (λ _. refl) (λ x. ground arith)

count_locked-total :
    (b : Breaker) (failed : Bool) → (count_locked b failed).total ≡ count_in failed b.total
unfolding count_locked
count_locked-total b failed = refl

trips_if :
    (b : Breaker) (failed : Bool) (p : Probe) (now : ℕ)
    → b.state ≡ state_closed
    → let (a, n, f) = counts b now in
      let k : Bucket = record { requests = n + 1; failures = f + to_nat failed } in
      (record_outcome b failed p now).0.state ≡ (
        if leb_ℤ b.settings.min_requests (pos (n + 1)) && reaches k b.settings.failure_ratio
        then state_open
        else state_closed)
unfolding record_outcome judge counts set_state_locked
trips_if b failed p now e =
    let f = advance_locked-Frame b now in
    let g = count_locked-Frame (advance_locked b now) failed in
    rw (refresh_closed b now e)
      (ground (arith, f, g, count_locked-total (advance_locked b now) failed))

-- A closed breaker opens on an outcome exactly when, with that outcome counted, the window holds at
-- least MinRequests requests and their failures are at least FailureRatio of them; otherwise it stays
-- closed. Which probe the outcome is booked through does not matter.
pub trips_iff :
    (b : Breaker) (failed : Bool) (p : Probe) (now : ℕ)
    → b.state ≡ state_closed
    → let (a, n, f) = counts b now in
      let share = b.settings.failure_ratio in
      let after = (record_outcome b failed p now).0.state in
      ((after ≡ state_open) ↔ (
        (pos_part b.settings.min_requests ≤ n + 1)
        × (pos_part share.num * (n + 1) ≤ (f + to_nat failed) * share.den)))
      × ((after ≡ state_open) ⊎ (after ≡ state_closed))
unfolding reaches
trips_iff b failed p now e =
    let (a, n, f) = counts b now in
    let ruled = trips_if b failed p now e in ((λ h. ground arith, λ h. ground arith), ground arith)

-- The state that an outcome leaves a half-open breaker in.
abbrev ruling : Breaker → Bool → Bool → State
ruling b mine failed =
    if mine
    then (if failed
        then state_open
        else if leb_ℤ b.settings.half_open_max (pos (b.successes + 1))
        then state_closed
        else state_half_open)
    else state_half_open

judge-ruling :
    (b : Breaker) (p : Probe) (failed : Bool) (now : ℕ) (trs : List Transition)
    → b.state ≡ state_half_open
    → (judge b.state b (is_current b p) failed now trs).0.state ≡ ruling b (belongs b.gen p) failed
unfolding judge is_current set_state_locked clear_locked
judge-ruling b p failed now trs e = ground arith

record_outcome-ruling :
    (b : Breaker) (failed : Bool) (p : Probe) (now : ℕ)
    → b.state ≡ state_half_open
    → (record_outcome b failed p now).0.state ≡ ruling b (belongs b.gen p) failed
unfolding record_outcome
record_outcome-ruling b failed p now e =
    let r = advance_locked b now in
    let f = Frame-trans (advance_locked-Frame b now) (count_locked-Frame r failed) in
    let j = judge-ruling (count_locked r failed) p failed now [] (f.state_eq ∙ e) in
    rw (refresh_half_open_eq b now e) (j ∙ rw (f.settings_eq, f.successes_eq, f.gen_eq))

module _ (b : Breaker) (failed : Bool) (p : Probe) (now : ℕ)
    (half : b.state ≡ state_half_open) where
  -- In half-open only a probe of the running episode has a say: the breaker reopens exactly on its
  -- failure, and closes exactly on its success when that is the HalfOpenMax-th one.
  pub half_open_verdict :
      (((record_outcome b failed p now).0.state ≡ state_open)
        ↔ ((belongs b.gen p ≡ true) × (failed ≡ true)))
      × (((record_outcome b failed p now).0.state ≡ state_closed) ↔ (
          (belongs b.gen p ≡ true)
          × (failed ≡ false)
          × (leb_ℤ b.settings.half_open_max (pos (b.successes + 1)) ≡ true)))
  half_open_verdict =
      let e = record_outcome-ruling b failed p now half in
      ((λ h. ground arith, λ h. ground arith), (λ h. ground arith, λ h. ground arith))

  only_counted :
      belongs b.gen p ≡ false
      → record_outcome b failed p now ≡ (count_locked (advance_locked b now) failed, [])
  unfolding record_outcome judge is_current fire
  only_counted other =
      rw (refresh_half_open_eq b now half) (
        ground
          (arith, advance_locked-Frame b now, count_locked-Frame (advance_locked b now) failed))

  -- In half-open, an outcome that no probe of the running episode brings, such as that of a request that
  -- was admitted before the trip, adds one request, and one failure if it failed, to what `Counts`
  -- reports, and changes nothing but the window: state, slots, successes, episode, timer and settings
  -- stay, and no callback is made.
  pub stale_no_say :
      belongs b.gen p ≡ false
      → let (a, n, f) = counts b now in
        let r = record_outcome b failed p now in
        Frame b r.0
        × (r.0.total ≡ record { requests = n + 1; failures = f + to_nat failed })
        × (r.1 ≡ [])
  unfolding counts
  stale_no_say other =
      let counted = advance_locked b now in
      rw (only_counted other) (
        Frame-trans (advance_locked-Frame b now) (count_locked-Frame counted failed),
        count_locked-total counted failed,
        refl,
      )

-- While an open breaker's timer runs, no outcome of any kind moves it: the outcome is counted, and
-- the timer's start stays as it was.
pub open_waits :
    (b : Breaker) (failed : Bool) (p : Probe) (now : ℕ)
    → b.state ≡ state_open
    → leb_ℤ b.settings.open_timeout (sub_ℕ now b.opened_at) ≡ false
    → record_outcome b failed p now ≡ (count_locked (advance_locked b now) failed, [])
unfolding record_outcome judge is_current fire
open_waits b failed p now e running =
    rw (refresh_open_eq b now e running)
      (ground (arith, advance_locked-Frame b now, count_locked-Frame (advance_locked b now) failed))

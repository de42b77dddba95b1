-- ===== src/Circuit/Account.antt =====
-- internal/circuit/circuit.go: over any run, the slots of a half-open breaker are exactly the probes
-- that callers hold, so none leaks and the breaker cannot wedge.
use nw_lb_go.Base.{
  ℕ, suc, ◌+◌, ◌^◌, ◌*◌, ◌≤◌, ◌<◌, ◌≡◌, refl, List, [], ◌∷◌, true, Str, arith, some, length,
  Option-cases, inl, inr, pos_part, ◌∙◌,
}
use nw_lb_go.Circuit.Types.{state_half_open, Settings, Breaker, Probe, new_breaker}
use nw_lb_go.Circuit.Frame.{Frame, advance_locked-Frame, refresh_cases}
use nw_lb_go.Circuit.Breaker.{refresh_locked, ready}
use nw_lb_go.Circuit.Trace.{
  Event, admits, resolves, releases, books, polls, asks_ready, counts_window, resets, System,
  take_out, step, run, boot, run-boot-Inv,
}
use nw_lb_go.Circuit.Episodes.{
  tally, IsAccounted, After, take_out-tally, take_out-Dated, admit-After, resolve-After, book-After,
  probe_release-After, reset-After, state-After, ready-After, counts-After,
}

taken :
    (b : Breaker) (i : ℕ) (ps : List Probe) (p : Probe) (rest : List Probe)
    → take_out i ps ≡ some (p, rest)
    → IsAccounted b ps
    → IsAccounted b (p ∷ rest)
taken b i ps p rest e a = record {
  counted = λ h. a.counted h ∙ take_out-tally b.gen i ps p rest e;
  dated = take_out-Dated b.gen i ps p rest e a.dated;
}

step-After :
    (s : System) (e : Event)
    → suc (suc s.breaker.gen) < 2 ^ 64
    → IsAccounted s.breaker s.held
    → After s.breaker (step s e).breaker (step s e).held
unfolding step
step-After s (admits now) small a = admit-After s.breaker s.held small now a
step-After s (resolves i failed now) small a = elim (Option-cases (take_out i s.held)) [
  | inl e ↦ rw (e, step) (record { accounted = a; gen_bound = omega arith })
  | inr ((p, ps), e) ↦
      rw (e, step)
        (resolve-After s.breaker ps small p failed now (taken s.breaker i s.held p ps e a))
]
step-After s (releases i) small a = elim (Option-cases (take_out i s.held)) [
  | inl e ↦ rw (e, step) (record { accounted = a; gen_bound = omega arith })
  | inr ((p, ps), e) ↦
      rw (e, step) (probe_release-After s.breaker ps small p (taken s.breaker i s.held p ps e a))
]
step-After s (books failed now) small a = book-After s.breaker s.held small failed now a
step-After s (polls now) small a = state-After s.breaker s.held small now a
step-After s (asks_ready now) small a = ready-After s.breaker s.held small now a
step-After s (counts_window now) small a = counts-After s.breaker s.held small now a
step-After s (resets now) small a = reset-After s.breaker s.held small now a

run-IsAccounted :
    (s : System) (es : List Event)
    → s.breaker.gen + 2 * suc (length es) < 2 ^ 64
    → IsAccounted s.breaker s.held
    → IsAccounted (run s es).breaker (run s es).held
unfolding run
run-IsAccounted s [] small a = a
run-IsAccounted s (e ∷ es) small a =
    let h = step-After s e (omega arith) a in
    run-IsAccounted (step s e) es (omega (arith, h.gen_bound)) h.accounted

-- The system after a run on a new breaker.
abbrev pub after : Str → Settings → ℕ → List Event → System
after name set now es = run (boot name set now) es

pub boot-IsAccounted :
    (name : Str) (set : Settings) (now : ℕ) (es : List Event)
    → length es < 2 ^ 62
    → IsAccounted (after name set now es).breaker (after name set now es).held
unfolding boot new_breaker
boot-IsAccounted name set now es small =
    run-IsAccounted _ es (omega arith) (record { counted = λ e. cc; dated = tt })

-- In a run of fewer than 2 ^ 62 calls on a new breaker, however calls on it interleave: while it is
-- half-open, the slots in use are exactly the probes of the running episode that callers still hold,
-- and these are at most HalfOpenMax.
pub outstanding_bounded :
    (name : Str) (set : Settings) (now : ℕ) (es : List Event)
    → length es < 2 ^ 62
    → (after name set now es).breaker.state ≡ state_half_open
    → let s = after name set now es in
      (s.breaker.probes ≡ tally s.breaker.gen s.held)
      × (tally s.breaker.gen s.held ≤ pos_part s.breaker.settings.half_open_max)
outstanding_bounded name set now es small half =
    let a = boot-IsAccounted name set now es small in
    let v = run-boot-Inv name set now es in
    (a.counted half, omega (arith, v.control.bounded, a.counted half))

pub refresh_half_open :
    (b : Breaker) (now : ℕ)
    → b.state ≡ state_half_open
    → Frame b (refresh_locked b now []).0 × ((refresh_locked b now []).1 ≡ [])
refresh_half_open b now half =
    refresh_cases (λ r. Frame b r.0 × (r.1 ≡ [])) b now [] (λ _. (advance_locked-Frame b now, refl))
      (λ x. ground arith)

-- So it cannot wedge: in such a run, a half-open breaker whose callers have resolved or released
-- every probe of the episode is ready for the next request, at any time.
pub never_wedged :
    (name : Str) (set : Settings) (now : ℕ) (es : List Event) (later : ℕ)
    → length es < 2 ^ 62
    → (after name set now es).breaker.state ≡ state_half_open
    → tally (after name set now es).breaker.gen (after name set now es).held ≡ 0
    → (ready (after name set now es).breaker later).1 ≡ true
unfolding ready
never_wedged name set now es later small half none_held =
    let s = run (boot name set now) es in
    let a = (boot-IsAccounted name set now es small).counted half in
    let c = (run-boot-Inv name set now es).control in
    let f = (refresh_half_open s.breaker later half).0 in
    let undecided = c.undecided in ground (arith, f)

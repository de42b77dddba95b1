-- ===== src/Examples/Breakers.antt =====
-- internal/circuit/circuit.go on concrete breakers and registries.
use nw_lb_go.Base.{
  ◌+◌, ◌<◌, ◌≤◌, ◌≡◌, refl, ◌↔◌, pos, pos_part, leb_ℤ, sub_ℕ, true, false, List, [], ◌∷◌, codes,
  length, arith, some, str_eq,
}
use nw_lb_go.Circuit.Types.{
  state_closed, state_open, state_half_open, Settings, Breaker, Probe, new_breaker, zero_probe,
  normalize, bucket_width,
}
use nw_lb_go.Circuit.Window.{
  clear_locked, retire_next, retire, advance_locked, count_locked, to_nat,
}
use nw_lb_go.Circuit.Breaker.{
  set_state_locked, refresh_locked, reaches, ready, grant, admit, judge, is_current, record_outcome,
  success, failure, release, probe_release, counts,
}
use nw_lb_go.Circuit.Trace.{Event, admits, releases, books, take_out, step, run, boot}
use nw_lb_go.Circuit.Invariant.{Inv}
use nw_lb_go.Circuit.Episodes.{belongs, tally}
use nw_lb_go.Circuit.Account.{after, outstanding_bounded, never_wedged}
use nw_lb_go.Circuit.Trace.{run-boot-Inv}
use nw_lb_go.Base.{◌*◌, pos_part, ◌≤◌, ◌⊎◌, ◌↔◌}
use nw_lb_go.Circuit.Frame.{Frame}
use nw_lb_go.Circuit.Verdicts.{trips_iff, half_open_verdict, stale_no_say}
use nw_lb_go.Circuit.Slide.{view, slide, on_last, window_slides}
use nw_lb_go.Circuit.WindowLaws.{rounds}
use nw_lb_go.Circuit.Callbacks.{Calls, record_outcome-Calls}
use nw_lb_go.Circuit.Foretell.{ready_foretells}
use nw_lb_go.Circuit.Registry.{Registry, new_registry, load, look}
use nw_lb_go.Circuit.Registry.Bound.{Race, RaceReach, looks, here, next, race, race_capped}

-- Two buckets of 500 ns; one request may trip, and one probe decides.
abbrev pub strict : Settings
strict = record {
  window = pos 1000;
  buckets = pos 2;
  min_requests = pos 1;
  failure_ratio = record { num = pos 1; den = 2 };
  open_timeout = pos 50;
  half_open_max = pos 1;
  max_entries = pos 2;
  on_state_change = true;
}

-- A failure trips the breaker; after the timeout a probe is admitted.
abbrev probing : List Event
probing = books true 10 ∷ admits 100 ∷ []

abbrev pub half_opened : Breaker
half_opened = (after (codes "a") strict 0 probing).breaker

pub probing-half_open : (after (codes "a") strict 0 probing).breaker.state ≡ state_half_open
unfolding boot run step new_breaker normalize bucket_width success failure record_outcome
    refresh_locked set_state_locked advance_locked retire retire_next clear_locked count_locked
    judge is_current reaches admit grant
probing-half_open = refl

outstanding_bounded_example :
    ((after (codes "a") strict 0 probing).breaker.probes
      ≡ tally
          (after (codes "a") strict 0 probing).breaker.gen
          (after (codes "a") strict 0 probing).held)
    × (tally
          (after (codes "a") strict 0 probing).breaker.gen
          (after (codes "a") strict 0 probing).held
        ≤ pos_part (after (codes "a") strict 0 probing).breaker.settings.half_open_max)
outstanding_bounded_example =
    outstanding_bounded (codes "a") strict 0 probing (omega arith) probing-half_open

abbrev released : List Event
released = books true 10 ∷ admits 100 ∷ releases 0 ∷ []

released-idle :
    ((after (codes "a") strict 0 released).breaker.state ≡ state_half_open)
    × (tally
          (after (codes "a") strict 0 released).breaker.gen
          (after (codes "a") strict 0 released).held
        ≡ 0)
unfolding boot run step new_breaker normalize bucket_width success failure record_outcome
    refresh_locked set_state_locked advance_locked retire retire_next clear_locked count_locked
    judge is_current reaches admit grant take_out probe_release release
released-idle = (refl, refl)

never_wedged_example : (ready (after (codes "a") strict 0 released).breaker 100).1 ≡ true
never_wedged_example =
    never_wedged (codes "a") strict 0 released 100 (omega arith) released-idle.0 released-idle.1

run-boot-Inv_example : Inv (run (boot (codes "a") strict 0) probing).breaker
run-boot-Inv_example = run-boot-Inv (codes "a") strict 0 probing

abbrev fresh : Breaker
fresh = new_breaker (codes "a") strict 0

trips_iff_example :
    let (a, n, f) = counts fresh 10 in
    let share = fresh.settings.failure_ratio in
    let after = (record_outcome fresh true zero_probe 10).0.state in
    ((after ≡ state_open) ↔ (
      (pos_part fresh.settings.min_requests ≤ n + 1)
      × (pos_part share.num * (n + 1) ≤ (f + to_nat true) * share.den)))
    × ((after ≡ state_open) ⊎ (after ≡ state_closed))
unfolding new_breaker
trips_iff_example = trips_iff fresh true zero_probe 10 refl

-- A probe of the first episode, and one of none.
abbrev pub of_episode : Probe
of_episode = record { bound = true; gen = 1; probe = true }

pub half_opened-belongs : belongs half_opened.gen of_episode ≡ true
unfolding boot run step new_breaker normalize bucket_width success failure record_outcome
    refresh_locked set_state_locked advance_locked retire retire_next clear_locked count_locked
    judge is_current reaches admit grant
half_opened-belongs = refl

half_open_verdict_example :
    (((record_outcome half_opened true of_episode 120).0.state ≡ state_open)
      ↔ ((belongs half_opened.gen of_episode ≡ true) × (true ≡ true)))
    × (((record_outcome half_opened true of_episode 120).0.state ≡ state_closed) ↔ (
        (belongs half_opened.gen of_episode ≡ true)
        × (true ≡ false)
        × (leb_ℤ half_opened.settings.half_open_max (pos (half_opened.successes + 1)) ≡ true)))
half_open_verdict_example = half_open_verdict half_opened true of_episode 120 probing-half_open

stale_no_say_example :
    let (a, n, f) = counts half_opened 120 in
    let r = record_outcome half_opened true zero_probe 120 in
    Frame half_opened r.0
    × (r.0.total ≡ record { requests = n + 1; failures = f + to_nat true })
    × (r.1 ≡ [])
stale_no_say_example = stale_no_say half_opened true zero_probe 120 probing-half_open refl

abbrev opened : Breaker
opened = (after (codes "a") strict 0 (books true 10 ∷ [])).breaker

opened-running :
    (opened.state ≡ state_open)
    × (leb_ℤ opened.settings.open_timeout (sub_ℕ 20 opened.opened_at) ≡ false)
unfolding boot run step new_breaker normalize bucket_width success failure record_outcome
    refresh_locked set_state_locked advance_locked retire retire_next clear_locked count_locked
    judge is_current reaches
opened-running = (refl, refl)

window_slides_example :
    view (count_locked (advance_locked half_opened 620) true)
    ≡ on_last true (slide (rounds half_opened 620) (view half_opened))
window_slides_example =
    window_slides half_opened true 620 (run-boot-Inv (codes "a") strict 0 probing).window

fresh-calls : fresh.settings.on_state_change ≡ true
unfolding new_breaker normalize
fresh-calls = refl

record_outcome-Calls_example :
    Calls fresh.state
      (record_outcome fresh true zero_probe 10).1
      (record_outcome fresh true zero_probe 10).0.state
record_outcome-Calls_example = record_outcome-Calls fresh true zero_probe 10 fresh-calls

opened-calls : opened.settings.on_state_change ≡ true
unfolding boot run step new_breaker normalize bucket_width success failure record_outcome
    refresh_locked set_state_locked advance_locked retire retire_next clear_locked count_locked
    judge is_current reaches
opened-calls = refl

-- Two callers ask a new registry for one name, and both have looked.
abbrev two_looked : Race
two_looked = record (race strict 0) { pending = codes "a" ∷ codes "b" ∷ [] }

two_looked-reached : RaceReach 3 (race strict 0) two_looked
unfolding race new_registry look load
two_looked-reached =
    next (next here (looks (race strict 0) (codes "b") refl (omega arith)))
      (looks (record (race strict 0) { pending = codes "b" ∷ [] }) (codes "a") refl (omega arith))

race_capped_example :
    length two_looked.registry.breakers < pos_part (new_registry strict 0).settings.max_entries + 3
race_capped_example = race_capped 3 strict 0 two_looked (omega arith) two_looked-reached

abbrev one_named : Registry
one_named = record (new_registry strict 0) { breakers = (codes "a", fresh) ∷ []; n = 1 }

one_named-load : load (codes "a") one_named.breakers ≡ some fresh
unfolding load new_registry str_eq
one_named-load = refl

ready_foretells_example :
    ((ready opened 100).0.probes ≡ opened.probes)
    × ((admit opened 100).2 ≡ (ready opened 100).1)
    × ((admit (ready opened 100).0 100).2 ≡ (ready opened 100).1)
ready_foretells_example =
    ready_foretells opened 100 (run-boot-Inv (codes "a") strict 0 (books true 10 ∷ []))

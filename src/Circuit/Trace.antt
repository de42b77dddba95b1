-- ===== src/Circuit/Trace.antt =====
-- internal/circuit/circuit.go: a breaker together with the probes that its callers hold, under any
-- sequence of calls. The mutex makes each call one step; `now` is any reading of the clock.
use nw_lb_go.Base.{
  ℕ, zero, suc, List, [], ◌∷◌, Bool, true, false, Str, arith, Option, none, some, if◌then◌else◌,
  Option-cases, inl, inr,
}
use nw_lb_go.Circuit.Types.{Settings, Breaker, Probe, new_breaker, zero_probe}
use nw_lb_go.Circuit.Breaker.{
  state, ready, admit, success, failure, probe_success, probe_failure, probe_release, counts, reset,
}
use nw_lb_go.Circuit.Invariant.{
  Inv, new_breaker-Inv, record_outcome-Inv, admit-Inv, state-Inv, ready-Inv, release-Inv, reset-Inv,
  advance_locked-Inv,
}

-- `resolves i failed now` and `releases i` are calls on the `i`-th probe that is held.
pub data Event : Type 0 where
  admits : ℕ → Event
  resolves : ℕ → Bool → ℕ → Event
  releases : ℕ → Event
  books : Bool → ℕ → Event
  polls : ℕ → Event
  asks_ready : ℕ → Event
  counts_window : ℕ → Event
  resets : ℕ → Event

pub record System : Type 0 where
  pub breaker : Breaker
  pub held : List Probe

-- The `i`-th probe and the others.
unfoldable pub take_out : ℕ → List Probe → Option (Probe × List Probe)
take_out i [] = none
take_out zero (p ∷ ps) = some (p, ps)
take_out (suc i) (p ∷ ps) = elim (take_out i ps) [ none ↦ none | some (q, qs) ↦ some (q, p ∷ qs) ]

abbrev pub resolve : Breaker → Bool → Probe → ℕ → Breaker
resolve b failed p now = if failed then (probe_failure b p now).0 else (probe_success b p now).0

abbrev pub book : Breaker → Bool → ℕ → Breaker
book b failed now = if failed then (failure b now).0 else (success b now).0

unfoldable pub step : System → Event → System
step s (admits now) =
    let (b, p, allowed, calls) = admit s.breaker now in record { breaker = b; held = p ∷ s.held }
step s (resolves i failed now) = elim (take_out i s.held) [
  | none ↦ s
  | some (p, ps) ↦ record { breaker = resolve s.breaker failed p now; held = ps }
]
step s (releases i) = elim (take_out i s.held) [
  | none ↦ s
  | some (p, ps) ↦ record { breaker = probe_release s.breaker p; held = ps }
]
step s (books failed now) = record s { breaker = book s.breaker failed now }
step s (polls now) = record s { breaker = (state s.breaker now).0 }
step s (asks_ready now) = record s { breaker = (ready s.breaker now).0 }
step s (counts_window now) = record s { breaker = (counts s.breaker now).0 }
step s (resets now) = record s { breaker = (reset s.breaker now).0 }

unfoldable pub run : System → List Event → System
run s [] = s
run s (e ∷ es) = run (step s e) es

unfoldable pub boot : Str → Settings → ℕ → System
boot name set now = record { breaker = new_breaker name set now; held = [] }

resolve-Inv :
    (b : Breaker) (failed : Bool) (p : Probe) (now : ℕ) → Inv b → Inv (resolve b failed p now)
unfolding probe_success probe_failure
resolve-Inv b failed p now v =
    ground (arith, record_outcome-Inv b true p now v, record_outcome-Inv b false p now v)

book-Inv : (b : Breaker) (failed : Bool) (now : ℕ) → Inv b → Inv (book b failed now)
unfolding success failure
book-Inv b failed now v =
    ground (
      arith,
      record_outcome-Inv b true zero_probe now v,
      record_outcome-Inv b false zero_probe now v,
    )

probe_release-Inv : (b : Breaker) (p : Probe) → Inv b → Inv (probe_release b p)
unfolding probe_release
probe_release-Inv b p v = ground (arith, release-Inv b p v)

step-Inv : (s : System) (e : Event) → Inv s.breaker → Inv (step s e).breaker
unfolding step counts
step-Inv s (admits now) v = admit-Inv s.breaker now v
step-Inv s (resolves i failed now) v = elim (Option-cases (take_out i s.held)) [
  | inl e ↦ rw (e, step) v
  | inr (a, e) ↦ rw (e, step) (resolve-Inv s.breaker failed a.0 now v)
]
step-Inv s (releases i) v = elim (Option-cases (take_out i s.held)) [
  | inl e ↦ rw (e, step) v
  | inr (a, e) ↦ rw (e, step) (probe_release-Inv s.breaker a.0 v)
]
step-Inv s (books failed now) v = book-Inv s.breaker failed now v
step-Inv s (polls now) v = state-Inv s.breaker now v
step-Inv s (asks_ready now) v = ready-Inv s.breaker now v
step-Inv s (counts_window now) v = advance_locked-Inv s.breaker now v
step-Inv s (resets now) v = reset-Inv s.breaker now v

run-Inv : (s : System) (es : List Event) → Inv s.breaker → Inv (run s es).breaker
unfolding run
run-Inv s [] v = v
run-Inv s (e ∷ es) v = run-Inv (step s e) es (step-Inv s e v)

-- After any sequence of calls on a new breaker, whatever its settings: the lock-free copy of the
-- state is the state; the totals are the sums over the buckets, none of which has more failures than
-- requests; the index is in range and the number of buckets is the configured one; outside half-open
-- no probe and no success is booked; and in half-open at most HalfOpenMax probes are outstanding and
-- fewer successes than that are booked.
pub run-boot-Inv :
    (name : Str) (set : Settings) (now : ℕ) (es : List Event)
    → Inv (run (boot name set now) es).breaker
unfolding boot
run-boot-Inv name set now es = run-Inv _ es (new_breaker-Inv name set now)

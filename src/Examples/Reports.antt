-- ===== src/Examples/Reports.antt =====
-- cmd/loadgen/stats.go, the method labels and ParseBackends on concrete inputs.
use nw_lb_go.Base.{
  ℕ, suc, ◌+◌, ◌≤◌, ◌≡◌, refl, false, List, [], ◌∷◌, map, ℤ, pos, negsuc, length, All, Str, codes,
  arith, str_eq,
}
use nw_lb_go.Base.Sort.{sort_by, insert_by}
use nw_lb_go.Config.Backends.{parse_backends}
use nw_lb_go.Config.RoundTrip.{IsWritable, write_backends, as_backend, parse_backends-write}
use nw_lb_go.Middleware.Labels.{new_system, moves, begins, run}
use nw_lb_go.Middleware.Cap.{Given, labels_bounded}
use nw_lb_go.Loadgen.Percentile.{
  millionths, percentile, percentile_index, above_zero, at_index, nearest_rank, IsPercentile,
  percentile-IsPercentile,
}
use nw_lb_go.Loadgen.Stats.{
  Sample, in_set, count_samples, count_sample, count_outcome, count_backend, count_key, see_backend,
  first_backend, add_to, increment, response_time, service_time, latency_stats_of, ms_round,
  round_div, neg, sum,
}
use nw_lb_go.Loadgen.Report.{RunParams, no_tally, report_of, build_report, fail_reason, slo_pass}
use nw_lb_go.Loadgen.Counted.{Counted, count_samples_lem}
use nw_lb_go.Loadgen.Open.{
  Event, schedules, closes, receives, answered, receive, answer, step, run_open, start, merged,
}
use nw_lb_go.Loadgen.Open
use nw_lb_go.Loadgen.Once.{IsComplete, open-IsComplete}
use nw_lb_go.Loadgen.Verdict.{Honest, slo_pass-Honest}

abbrev durations : List ℤ
durations = negsuc 2 ∷ pos 5 ∷ pos 5 ∷ pos 900 ∷ []

percentile-IsPercentile_example :
    IsPercentile 500000 durations (percentile durations (millionths (pos 500000)))
percentile-IsPercentile_example =
    percentile-IsPercentile durations 500000
      ((refl, (refl, (refl, tt))), ((refl, (refl, tt)), ((refl, tt), (tt, tt)))) (omega arith)
      (omega arith) (omega arith)

abbrev sample : ℕ → Str → Sample
sample code backend = record {
  scheduled_at = 1000;
  sent_at = 4000;
  completed_at = 9000;
  code = code;
  backend_id = backend;
  session_key = codes "s";
}

abbrev samples : List Sample
samples = sample 0 (codes "a") ∷ sample 0 (codes "b") ∷ []

abbrev params : RunParams
params = record {
  elapsed = 2000000000;
  scheduled = 2;
  interrupted = false;
  slo = pos 10000;
  error_budget = 10;
}

count_samples_lem_example : Counted (pos 10000) samples (count_samples (pos 10000) samples no_tally)
count_samples_lem_example = count_samples_lem (pos 10000) samples

slo_pass-Honest_example : Honest samples params
unfolding slo_pass fail_reason build_report report_of count_samples count_sample count_outcome
    count_backend count_key see_backend first_backend add_to in_set increment response_time
    service_time latency_stats_of ms_round round_div neg sum percentile percentile_index above_zero
    at_index nearest_rank sort_by insert_by str_eq
slo_pass-Honest_example = slo_pass-Honest samples params refl

labels_bounded_example :
    let s = new_system (pos 2) 3 in
    let t = run (begins 0 (codes "m") ∷ moves 0 ∷ []) s in
    All (Given t.labels.seen) t.callers × (suc (length t.labels.seen) ≤ s.labels.max + 3)
labels_bounded_example = labels_bounded (pos 2) 3 (begins 0 (codes "m") ∷ moves 0 ∷ [])

abbrev two_backends : List (Str × Str)
two_backends = (codes "a", codes "h:1") ∷ (codes "b", codes "k=2") ∷ []

two_backends-IsWritable : All IsWritable two_backends
unfolding str_eq
two_backends-IsWritable = (
  record {
    some_id = refl;
    some_addr = refl;
    plain_id = ((refl, refl), tt);
    plain_addr = ((refl, refl), ((refl, refl), ((refl, refl), tt)));
    no_equals = (refl, tt);
  },
  (
    record {
      some_id = refl;
      some_addr = refl;
      plain_id = ((refl, refl), tt);
      plain_addr = ((refl, refl), ((refl, refl), ((refl, refl), tt)));
      no_equals = (refl, tt);
    },
    tt,
  ),
)

parse_backends-write_example :
    parse_backends (write_backends two_backends) ≡ (map as_backend two_backends, [])
parse_backends-write_example = parse_backends-write two_backends two_backends-IsWritable

-- Two workers and three requests, answered out of order.
abbrev events : List Event
events =
    schedules
    ∷ schedules
    ∷ receives 0
    ∷ receives 1
    ∷ schedules
    ∷ answered 1
    ∷ closes
    ∷ receives 1
    ∷ answered 0
    ∷ answered 1
    ∷ receives 0
    ∷ receives 1
    ∷ []

open-IsComplete_example : IsComplete 3 (merged (run_open 3 2 events).workers)
unfolding run_open Open.run step receive answer start merged
open-IsComplete_example = open-IsComplete 3 2 events (omega arith) refl (refl, (refl, tt))

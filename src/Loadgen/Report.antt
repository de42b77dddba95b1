-- ===== src/Loadgen/Report.antt =====
-- cmd/loadgen/stats.go: `Report`, less the fields that copy or round a flag, and its verdict.
use nw_lb_go.Base.{
  ℕ, ◌*◌, ◌-◌, Bool, true, false, if◌then◌else◌, List, [], Option, none, some, ℤ, ltb_ℤ, ltb, ◌==◌,
  length, Str,
}
use nw_lb_go.Base.Sort.{sort_by}
use nw_lb_go.Loadgen.Stats.{
  Sample, LatencyStats, nearest, ms_round, latency_stats_of, Tally, count_samples,
}

-- The error budget is in parts per million.
pub record RunParams : Type 0 where
  pub elapsed : ℕ
  pub scheduled : ℕ
  pub interrupted : Bool
  pub slo : ℤ
  pub error_budget : ℕ

-- Times are in microseconds, ratios in parts per million and rates in thousandths of a request per second.
pub record Report : Type 0 where
  pub rps_achieved : ℕ
  pub scheduled : ℕ
  pub interrupted : Bool
  pub total : ℕ
  pub ok : ℕ
  pub errors : ℕ
  pub errors_by_code : List (ℕ × ℕ)
  pub service_time : LatencyStats
  pub response_time : LatencyStats
  pub error_latency : LatencyStats
  pub slo_ms : ℤ
  pub slo_violations : ℕ
  pub slo_fraction_under : ℕ
  pub error_budget : ℕ
  pub error_ratio : ℕ
  pub backend_distribution : List (Str × ℕ)
  pub distinct_keys : ℕ
  pub keys_with_multiple_backends : ℕ

abbrev pub no_tally : Tally
no_tally = record {
  ok = 0;
  errors = 0;
  errors_by_code = [];
  slo_violations = 0;
  service = [];
  response = [];
  err_latency = [];
  backend_distribution = [];
  keys = [];
  key_backend = [];
  multi_backend = [];
}

-- A ratio that stays 0 where the code does not divide.
abbrev pub ratio : ℕ → ℕ → ℕ → ℕ
ratio scale p q = if q == 0 then 0 else nearest (p * scale) q

unfoldable pub report_of : ℕ → RunParams → Tally → Report
unfolding latency_stats_of ms_round
report_of total p t = record {
  rps_achieved = ratio 1000000000000 total p.elapsed;
  scheduled = p.scheduled;
  interrupted = p.interrupted;
  total = total;
  ok = t.ok;
  errors = t.errors;
  errors_by_code = t.errors_by_code;
  service_time = latency_stats_of (sort_by ltb_ℤ t.service);
  response_time = latency_stats_of (sort_by ltb_ℤ t.response);
  error_latency = latency_stats_of (sort_by ltb_ℤ t.err_latency);
  slo_ms = ms_round p.slo;
  slo_violations = t.slo_violations;
  slo_fraction_under = ratio 1000000 (t.ok - t.slo_violations) t.ok;
  error_budget = p.error_budget;
  error_ratio = ratio 1000000 t.errors total;
  backend_distribution = t.backend_distribution;
  distinct_keys = length t.keys;
  keys_with_multiple_backends = length t.multi_backend;
}

unfoldable pub build_report : List Sample → RunParams → Report
unfolding report_of count_samples
build_report samples p = report_of (length samples) p (count_samples p.slo samples no_tally)

pub data Reason : Type 0 where
  no_requests : Reason
  run_interrupted : (total scheduled : ℕ) → Reason
  no_successful_requests : Reason
  error_ratio_exceeds : (ratio budget : ℕ) → Reason
  p99_exceeds : (p99 slo : ℤ) → Reason

unfoldable pub fail_reason : Report → Option Reason
fail_reason r =
    if r.total == 0
    then some no_requests
    else if r.interrupted
    then some (run_interrupted r.total r.scheduled)
    else if r.ok == 0
    then some no_successful_requests
    else if ltb r.error_budget r.error_ratio
    then some (error_ratio_exceeds r.error_ratio r.error_budget)
    else if ltb_ℤ r.slo_ms (r.response_time).p99
    then some (p99_exceeds (r.response_time).p99 r.slo_ms)
    else none

unfoldable pub slo_pass : Report → Bool
unfolding fail_reason
slo_pass r = elim (fail_reason r) [ none ↦ true | some e ↦ false ]

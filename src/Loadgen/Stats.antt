-- ===== src/Loadgen/Stats.antt =====
-- cmd/loadgen/stats.go: the samples, `buildReport` and the verdict. Milliseconds with three decimals are
-- microseconds here, and ratios with six decimals are parts per million.
use nw_lb_go.Base.{
  ℕ, zero, suc, ◌+◌, ◌*◌, ◌/◌, Bool, false, not, ◌||◌, if◌then◌else◌, List, [], ◌∷◌, ◌++◌, Option,
  none, some, ℤ, pos, negsuc, pos_part, neg_part, sub_ℕ, ltb_ℤ, ◌==◌, length, get_or, snoc, Str,
  str_eq,
}
use nw_lb_go.Loadgen.Percentile.{millionths, percentile}

-- The code of a status is a number, and 0 is `codes.OK`.
pub record Sample : Type 0 where
  pub scheduled_at : ℕ
  pub sent_at : ℕ
  pub completed_at : ℕ
  pub code : ℕ
  pub backend_id : Str
  pub session_key : Str

unfoldable pub service_time : Sample → ℤ
service_time s = sub_ℕ s.completed_at s.sent_at

unfoldable pub response_time : Sample → ℤ
response_time s = sub_ℕ s.completed_at s.scheduled_at

pub record LatencyStats : Type 0 where
  pub p50 : ℤ
  pub p90 : ℤ
  pub p95 : ℤ
  pub p99 : ℤ
  pub p999 : ℤ
  pub max : ℤ
  pub mean : ℤ

-- `p / q` to the nearest integer, halves away from zero.
abbrev pub nearest : ℕ → ℕ → ℕ
nearest p q = (2 * p + q) / (2 * q)

unfoldable pub neg : ℕ → ℤ
neg zero = pos 0
neg (suc n) = negsuc n

unfoldable pub round_div : ℤ → ℕ → ℤ
unfolding neg
round_div (pos p) q = pos (nearest p q)
round_div (negsuc p) q = neg (nearest (suc p) q)

-- `msRound`.
unfoldable pub ms_round : ℤ → ℤ
unfolding neg
ms_round d = round_div d 1000

abbrev pub add_ℤ : ℤ → ℤ → ℤ
add_ℤ a b = sub_ℕ (pos_part a + pos_part b) (neg_part a + neg_part b)

unfoldable pub sum : List ℤ → ℤ
sum [] = pos 0
sum (d ∷ ds) = add_ℤ d (sum ds)

unfoldable pub latency_stats_of : List ℤ → LatencyStats
unfolding ms_round sum neg percentile
latency_stats_of [] = record {
  p50 = pos 0;
  p90 = pos 0;
  p95 = pos 0;
  p99 = pos 0;
  p999 = pos 0;
  max = pos 0;
  mean = pos 0;
}
latency_stats_of (d ∷ ds) =
    let sorted = d ∷ ds in
    record {
      p50 = ms_round (percentile sorted (millionths (pos 500000)));
      p90 = ms_round (percentile sorted (millionths (pos 900000)));
      p95 = ms_round (percentile sorted (millionths (pos 950000)));
      p99 = ms_round (percentile sorted (millionths (pos 990000)));
      p999 = ms_round (percentile sorted (millionths (pos 999000)));
      max = ms_round (get_or sorted (length ds) (pos 0));
      mean = round_div (sum sorted) (1000 * length sorted);
    }

unfoldable pub merge_samples : List (List Sample) → List Sample
merge_samples [] = []
merge_samples (w ∷ ws) = w ++ merge_samples ws

-- A Go map from which a missing key reads 0, and `m[k]++`.
unfoldable pub count_of {ℓ} : {K : Type ℓ} → (K → K → Bool) → K → List (K × ℕ) → ℕ
count_of eq k [] = 0
count_of eq k ((j, n) ∷ m) = let rest = count_of eq k m in if eq j k then n else rest

unfoldable pub increment {ℓ} : {K : Type ℓ} → (K → K → Bool) → K → List (K × ℕ) → List (K × ℕ)
increment eq k [] = (k, 1) ∷ []
increment eq k ((j, n) ∷ m) =
    let rest = increment eq k m in if eq j k then (j, suc n) ∷ m else (j, n) ∷ rest

-- A Go map to empty structs.
unfoldable pub in_set : Str → List Str → Bool
in_set k [] = false
in_set k (x ∷ xs) = str_eq x k || in_set k xs

unfoldable pub add_to : Str → List Str → List Str
unfolding in_set
add_to k xs = if in_set k xs then xs else k ∷ xs

unfoldable pub first_backend : Str → List (Str × Str) → Option Str
first_backend k [] = none
first_backend k ((j, b) ∷ m) = let rest = first_backend k m in if str_eq j k then some b else rest

-- What the loop of `buildReport` keeps.
pub record Tally : Type 0 where
  pub ok : ℕ
  pub errors : ℕ
  pub errors_by_code : List (ℕ × ℕ)
  pub slo_violations : ℕ
  pub service : List ℤ
  pub response : List ℤ
  pub err_latency : List ℤ
  pub backend_distribution : List (Str × ℕ)
  pub keys : List Str
  pub key_backend : List (Str × Str)
  pub multi_backend : List Str

unfoldable pub count_outcome : ℤ → Sample → Tally → Tally
unfolding response_time service_time increment
count_outcome slo s t =
    let rt = response_time s in
    if s.code == 0
    then record t {
      ok = suc t.ok;
      service = snoc t.service (service_time s);
      response = snoc t.response rt;
      slo_violations = if ltb_ℤ slo rt then suc t.slo_violations else t.slo_violations;
    }
    else record t {
      errors = suc t.errors;
      errors_by_code = increment (◌==◌) s.code t.errors_by_code;
      err_latency = snoc t.err_latency rt;
    }

-- A key that has a backend already, or none.
unfoldable pub see_backend : Str → Str → Option Str → Tally → Tally
unfolding add_to
see_backend k b none t = record t { key_backend = (k, b) ∷ t.key_backend }
see_backend k b (some prev) t =
    if not (str_eq prev b) then record t { multi_backend = add_to k t.multi_backend } else t

unfoldable pub count_key : Sample → Tally → Tally
unfolding add_to see_backend first_backend
count_key s t =
    if str_eq s.session_key []
    then t
    else let seen = record t { keys = add_to s.session_key t.keys } in
      if str_eq s.backend_id []
      then seen
      else see_backend s.session_key s.backend_id (first_backend s.session_key t.key_backend) seen

unfoldable pub count_backend : Sample → Tally → Tally
unfolding increment
count_backend s t =
    if not (str_eq s.backend_id [])
    then record t { backend_distribution = increment str_eq s.backend_id t.backend_distribution }
    else t

-- One round of the loop, and the loop.
unfoldable pub count_sample : ℤ → Sample → Tally → Tally
unfolding count_outcome count_backend count_key
count_sample slo s t = count_key s (count_backend s (count_outcome slo s t))

unfoldable pub count_samples : ℤ → List Sample → Tally → Tally
unfolding count_sample
count_samples slo [] t = t
count_samples slo (s ∷ ss) t = count_samples slo ss (count_sample slo s t)

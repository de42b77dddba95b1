-- ===== src/Loadgen/Verdict.antt =====
-- cmd/loadgen/stats.go: what a report that passes says of the samples.
use nw_lb_go.Base.{
  ℕ, zero, suc, ◌*◌, ◌≤◌, ◌≡◌, ◌∙◌, refl, ap, sym, subst, Bool, true, false, not, Bool-cases, inl,
  inr, List, [], ◌∷◌, map, none, ℤ, pos, negsuc, ltb_ℤ, ltb, ltb→le, ◌==◌, length, length-map,
  pos_part, neg_part, Option-cases, arith,
}
use nw_lb_go.Base.Sort.{keep, sort_by, length-sort_by, sort_by-IsSorted, keep-sort_by}
use nw_lb_go.Loadgen.Percentile.{millionths, percentile, IsOrder-ltb_ℤ, percentile-IsPercentile}
use nw_lb_go.Loadgen.Stats.{
  Sample, response_time, ms_round, neg, round_div, nearest, latency_stats_of, count_samples,
}
use nw_lb_go.Loadgen.Outcomes.{is_ok, is_error}
use nw_lb_go.Loadgen.Counted.{count_samples_lem}
use nw_lb_go.Loadgen.Report.{
  RunParams, Report, ratio, no_tally, report_of, build_report, fail_reason, slo_pass,
}

neg-parts : (n : ℕ) → (pos_part (neg n) ≡ 0) × (neg_part (neg n) ≡ n)
unfolding neg
neg-parts zero = (refl, refl)
neg-parts (suc n) = (refl, refl)

-- Rounding to microseconds keeps the order.
ms_round_mono : (a b : ℤ) → ltb_ℤ b a ≡ false → ltb_ℤ (ms_round b) (ms_round a) ≡ false
unfolding ms_round round_div
ms_round_mono (pos a) (pos b) h = ground arith
ms_round_mono (pos a) (negsuc b) h = absurd (ground arith)
ms_round_mono (negsuc a) (pos b) h = let x = neg-parts (nearest (suc a) 1000) in ground (arith, x.0)
ms_round_mono (negsuc a) (negsuc b) h =
    let x = neg-parts (nearest (suc a) 1000) in
    let y = neg-parts (nearest (suc b) 1000) in ground (arith, x.0, x.1, y.0, y.1)

length-keep_mono {ℓ} :
    {A : Type ℓ} (p q : A → Bool) (xs : List A)
    → ((x : A) → p x ≡ true → q x ≡ true)
    → length (keep p xs) ≤ length (keep q xs)
unfolding keep
length-keep_mono p q [] f = omega arith
length-keep_mono p q (x ∷ xs) f =
    let r = length-keep_mono p q xs f in
    elim (Bool-cases (p x)) [
      | inl e ↦ rw (e, f x e) (omega (arith, r))
      | inr e ↦ elim (Bool-cases (q x)) [
        | inl g ↦ rw (e, g) (omega (arith, r))
        | inr g ↦ rw (e, g) r
      ]
    ]

p99_of :
    (xs : List ℤ)
    → 1 ≤ length xs
    → (latency_stats_of xs).p99 ≡ ms_round (percentile xs (millionths (pos 990000)))
unfolding latency_stats_of
p99_of [] h = absurd (omega arith)
p99_of (x ∷ xs) h = refl

-- A duration within the SLO, both in whole microseconds.
abbrev pub within : ℤ → ℤ → Bool
within slo rt = not (ltb_ℤ (ms_round slo) (ms_round rt))

-- If the p99 of some durations is within the SLO, so are 99 in 100 of them.
p99_within :
    (slo : ℤ) (xs : List ℤ)
    → 1 ≤ length xs
    → ltb_ℤ (ms_round slo) (latency_stats_of (sort_by ltb_ℤ xs)).p99 ≡ false
    → 99 * length xs ≤ 100 * length (keep (within slo) xs)
p99_within slo xs n h =
    let sorted = sort_by ltb_ℤ xs in
    let size = length-sort_by ltb_ℤ xs in
    let v = percentile sorted (millionths (pos 990000)) in
    let low : ltb_ℤ (ms_round slo) (ms_round v) ≡ false =
      ap (ltb_ℤ (ms_round slo)) (sym (p99_of sorted (omega (arith, size, n)))) ∙ h in
    let rank =
      percentile-IsPercentile sorted 990000 (sort_by-IsSorted ltb_ℤ IsOrder-ltb_ℤ xs)
        (omega (arith, size, n)) (omega arith) (omega arith) in
    let more =
      length-keep_mono (λ x. not (ltb_ℤ v x)) (within slo) sorted
        (λ x e.
          no_later (ms_round slo) (ms_round v) (ms_round x) low
            (ms_round_mono x v (ground arith))) in
    let same =
      ap length (keep-sort_by ltb_ℤ IsOrder-ltb_ℤ (within slo) xs)
      ∙ length-sort_by ltb_ℤ (keep (within slo) xs) in
    omega (arith, rank.reached, more, same, size)
  where
    no_later : (s v x : ℤ) → ltb_ℤ s v ≡ false → ltb_ℤ v x ≡ false → not (ltb_ℤ s x) ≡ true
    no_later s v x a b = ground arith

-- What the verdict "PASS" promises.
pub record Honest (samples : List Sample) (p : RunParams) : Type 0 where
  pub complete : p.interrupted ≡ false
  pub some_ok : 1 ≤ length (keep is_ok samples)
  pub in_time :
      99 * length (keep is_ok samples)
      ≤ 100 * length (keep (within p.slo) (map response_time (keep is_ok samples)))
  pub in_budget :
      nearest (length (keep is_error samples) * 1000000) (length samples) ≤ p.error_budget

fail_reason-none :
    (r : Report)
    → fail_reason r ≡ none
    → (r.interrupted ≡ false)
      × ((r.total == 0) ≡ false)
      × ((r.ok == 0) ≡ false)
      × (ltb r.error_budget r.error_ratio ≡ false)
      × (ltb_ℤ r.slo_ms (r.response_time).p99 ≡ false)
unfolding fail_reason
fail_reason-none r h = (ground arith, ground arith, ground arith, ground arith, ground arith)

slo_pass-none : (r : Report) → slo_pass r ≡ true → fail_reason r ≡ none
unfolding slo_pass
slo_pass-none r h = elim (Option-cases (fail_reason r)) [
  | inl e ↦ e
  | inr (x, e) ↦ absurd (ground (arith, e))
]

ratio_of : (p q : ℕ) → (q == 0) ≡ false → ratio 1000000 p q ≡ nearest (p * 1000000) q
ratio_of p q h = rw h refl

-- A report says "SLO: PASS" only if the run was complete, some request succeeded, the share of failed ones
-- is within the error budget, and at least 99 in 100 of the successful requests were answered within the
-- SLO, counted from the time at which they were scheduled. Shares are in whole parts per million and times in
-- whole microseconds.
pub slo_pass-Honest :
    (samples : List Sample) (p : RunParams)
    → slo_pass (build_report samples p) ≡ true
    → Honest samples p
unfolding build_report report_of
slo_pass-Honest samples p h =
    let t = count_samples p.slo samples no_tally in
    let c = fail_reason-none (build_report samples p) (slo_pass-none (build_report samples p) h) in
    let counted = (count_samples_lem p.slo samples).outcomes in
    let oks = keep is_ok samples in
    let size = length-map oks response_time in
    let some_ok : 1 ≤ length oks = ground (arith, counted.oks, c.2) in
    record {
      complete = c.0;
      some_ok = some_ok;
      in_time =
          (let r = p99_within p.slo (map response_time oks) (omega (arith, size, some_ok)) (
              ap (λ l. ltb_ℤ (ms_round p.slo) (latency_stats_of (sort_by ltb_ℤ l)).p99)
                (sym counted.responses)
              ∙ c.4) in
            omega (arith, r, size));
      in_budget =
          subst (λ e. nearest (e * 1000000) (length samples) ≤ p.error_budget) counted.failed
            (ltb→le p.error_budget (nearest (t.errors * 1000000) (length samples))
              (ap (ltb p.error_budget) (sym (ratio_of t.errors (length samples) c.1)) ∙ c.3));
    }

-- ===== src/Loadgen/Once.antt =====
-- cmd/loadgen/main.go: every scheduled request of an open run is issued once.
use nw_lb_go.Base.{
  ℕ, zero, suc, ◌+◌, ◌≤◌, ◌<◌, ◌≡◌, refl, ap, ltb, false, ◌==◌, if◌then◌else◌, List, [], ◌∷◌,
  length, All, total, total-append, arith,
}
use nw_lb_go.Loadgen.Open.{left, Worker, Event, merged, run_open}
use nw_lb_go.Loadgen.Balance.{in_flight, held, has_left, is_left, upto, run_open-Balanced}

-- How often an index occurs.
abbrev is_index : ℕ → ℕ → ℕ
is_index i j = if j == i then 1 else 0

abbrev pub occurrences : ℕ → List ℕ → ℕ
occurrences i xs = total (is_index i) xs

upto-is_index : (i n : ℕ) → upto (is_index i) n ≡ (if ltb i n then 1 else 0)
upto-is_index i zero = ground arith
upto-is_index i (suc n) = ground (arith, upto-is_index i n)

upto-one : (n : ℕ) → upto (λ j. 1) n ≡ n
upto-one zero = refl
upto-one (suc n) = omega (arith, upto-one n)

total-one : (xs : List ℕ) → total (λ j. 1) xs ≡ length xs
total-one [] = refl
total-one (x ∷ xs) = omega (arith, total-one xs)

total-merged : (g : ℕ → ℕ) (ks : List Worker) → total g (merged ks) ≤ total (held g) ks
unfolding merged
total-merged g [] = omega arith
total-merged g (k ∷ ks) =
    let a = total-append g k.local (merged ks) in omega (arith, a, total-merged g ks)

-- No request is issued twice, and none that was not scheduled: in any run, interrupted or not, whatever the
-- order in which the scheduler and the workers run, each index occurs at most once in the merged samples,
-- and only those below `n` do.
pub open_at_most_once :
    (n concurrency : ℕ) (es : List Event) (i : ℕ)
    → occurrences i (merged (run_open n concurrency es).workers) ≤ (if ltb i n then 1 else 0)
open_at_most_once n concurrency es i =
    let r = run_open n concurrency es in
    let h = run_open-Balanced n concurrency es in
    let a = h.balance (is_index i) in
    let b = total-merged (is_index i) r.workers in
    let c = upto-is_index i r.next in omega (arith, a, b, c, earlier i r.next n h.within)
  where
    earlier : (i m n : ℕ) → m ≤ n → (if ltb i m then 1 else 0) ≤ (if ltb i n then 1 else 0)
    earlier i m n h = ground arith

left_of_All : (ks : List Worker) → All (λ k. k.stage ≡ left) ks → total is_left ks ≡ length ks
left_of_All [] h = refl
left_of_All (k ∷ ks) h = (let e = ap has_left h.0 in omega (arith, e, left_of_All ks h.1))

merged_left :
    (g : ℕ → ℕ) (ks : List Worker)
    → All (λ k. k.stage ≡ left) ks
    → total g (merged ks) ≡ total (held g) ks
unfolding merged
merged_left g [] h = refl
merged_left g (k ∷ ks) h =
    let e = ap (in_flight g) h.0 in
    let a = total-append g k.local (merged ks) in omega (arith, e, a, merged_left g ks h.1)

-- The samples of a complete run: as many as were scheduled, and each index once.
pub record IsComplete (n : ℕ) (samples : List ℕ) : Type 0 where
  pub size : length samples ≡ n
  pub each : (i : ℕ) → i < n → occurrences i samples ≡ 1

-- A run with a worker, that was not interrupted and whose workers have all left, has issued every
-- scheduled request exactly once: the merged samples have each index below `n` once, and are `n`. So
-- "total" equals "scheduled" in the report.
pub open-IsComplete :
    (n concurrency : ℕ) (es : List Event)
    → 1 ≤ concurrency
    → (run_open n concurrency es).cancelled ≡ false
    → All (λ k. k.stage ≡ left) (run_open n concurrency es).workers
    → IsComplete n (merged (run_open n concurrency es).workers)
open-IsComplete n concurrency es some_worker going gone =
    let r = run_open n concurrency es in
    let h = run_open-Balanced n concurrency es in
    let count = left_of_All r.workers gone in
    let z = h.drained going (omega (arith, count, h.sized, some_worker)) in
    let done : r.next ≡ n = omega (arith, h.within, h.shut going z.0) in
    let rest = λ (g : ℕ → ℕ). sums g r.slots r.dropped z.1 (h.intact going) in
    record {
      size =
          (let a = h.balance (λ j. 1) in
            let b = merged_left (λ j. 1) r.workers gone in
            omega
              (arith, a, b, rest (λ j. 1), upto-one r.next, total-one (merged r.workers), done));
      each = λ i small.
          (let a = h.balance (is_index i) in
            let b = merged_left (is_index i) r.workers gone in
            let c = upto-is_index i r.next in
            let x = rest (is_index i) in ground (arith, a, b, c, x, done, small));
    }
  where
    sums :
        (g : ℕ → ℕ) (slots dropped : List ℕ)
        → length slots ≡ 0
        → dropped ≡ []
        → total g slots + total g dropped ≡ 0
    sums g [] dropped e d = (let q = ap (total g) d in omega (arith, q))
    sums g (x ∷ slots) dropped e d = absurd (omega (arith, e))

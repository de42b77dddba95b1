-- ===== src/Circuit/WindowLaws.antt =====
-- internal/circuit/circuit.go: the rolling window keeps its totals equal to the sums of its buckets.
use nw_lb_go.Base.{
  ℕ, zero, suc, ◌+◌, ◌*◌, ◌/◌, ◌%◌, ◌≤◌, ◌<◌, ◌≡◌, refl, inl, inr, List, [], ◌∷◌, Bool, true, false,
  length, get_or, set, replicate, length-set, length-replicate, arith, pos, pos_part, sub_ℕ, ltb_ℤ,
  leb, leb→le, Bool-cases,
}
use nw_lb_go.Circuit.Types.{Bucket, empty_bucket, Breaker}
use nw_lb_go.Circuit.Window.{
  clear_locked, retire_next, retire, advance_locked, count_locked, count_in,
}

abbrev pub sum_requests : List Bucket → ℕ
sum_requests [] = 0
sum_requests (k ∷ ks) = k.requests + sum_requests ks

abbrev pub sum_failures : List Bucket → ℕ
sum_failures [] = 0
sum_failures (k ∷ ks) = k.failures + sum_failures ks

-- No bucket has more failures than requests.
abbrev pub IsSane : List Bucket → Type 0
IsSane [] = Unit {0}
IsSane (k ∷ ks) = (k.failures ≤ k.requests) × IsSane ks

pub record IsWindow (b : Breaker) : Type 0 where
  pub in_range : b.idx < length b.buckets
  pub requests_counted : b.total.requests ≡ sum_requests b.buckets
  pub failures_counted : b.total.failures ≡ sum_failures b.buckets
  pub sane : IsSane b.buckets
  pub wide : 0 < b.bucket_dur

pub sum_requests-set :
    (ks : List Bucket) (i : ℕ) (v : Bucket)
    → i < length ks
    → sum_requests (set ks i v) + (get_or ks i empty_bucket).requests ≡ sum_requests ks + v.requests
sum_requests-set [] i v h = elim h [ ]
sum_requests-set (k ∷ ks) zero v h = omega arith
sum_requests-set (k ∷ ks) (suc i) v h = omega (arith, sum_requests-set ks i v)

pub sum_failures-set :
    (ks : List Bucket) (i : ℕ) (v : Bucket)
    → i < length ks
    → sum_failures (set ks i v) + (get_or ks i empty_bucket).failures ≡ sum_failures ks + v.failures
sum_failures-set [] i v h = elim h [ ]
sum_failures-set (k ∷ ks) zero v h = omega arith
sum_failures-set (k ∷ ks) (suc i) v h = omega (arith, sum_failures-set ks i v)

sum_requests-replicate : (n : ℕ) → sum_requests (replicate n empty_bucket) ≡ 0
sum_requests-replicate zero = refl
sum_requests-replicate (suc n) = omega (arith, sum_requests-replicate n)

sum_failures-replicate : (n : ℕ) → sum_failures (replicate n empty_bucket) ≡ 0
sum_failures-replicate zero = refl
sum_failures-replicate (suc n) = omega (arith, sum_failures-replicate n)

pub replicate-IsSane : (n : ℕ) → IsSane (replicate n empty_bucket)
replicate-IsSane zero = tt
replicate-IsSane (suc n) = (omega arith, replicate-IsSane n)

set-IsSane :
    (ks : List Bucket) (i : ℕ) (v : Bucket)
    → IsSane ks
    → v.failures ≤ v.requests
    → IsSane (set ks i v)
set-IsSane [] i v s h = tt
set-IsSane (k ∷ ks) zero v s h = (h, s.1)
set-IsSane (k ∷ ks) (suc i) v s h = (s.0, set-IsSane ks i v s.1 h)

get-IsSane :
    (ks : List Bucket) (i : ℕ)
    → IsSane ks
    → (get_or ks i empty_bucket).failures ≤ (get_or ks i empty_bucket).requests
get-IsSane [] i s = omega arith
get-IsSane (k ∷ ks) zero s = s.0
get-IsSane (k ∷ ks) (suc i) s = get-IsSane ks i s.1

pub sum_failures-le : (ks : List Bucket) → IsSane ks → sum_failures ks ≤ sum_requests ks
sum_failures-le [] s = omega arith
sum_failures-le (k ∷ ks) s = omega (arith, sum_failures-le ks s.1)

-- The window of new buckets is empty.
pub empty-sums :
    (n : ℕ)
    → (sum_requests (replicate n empty_bucket) ≡ 0) × (sum_failures (replicate n empty_bucket) ≡ 0)
empty-sums n = (sum_requests-replicate n, sum_failures-replicate n)

pub clear_locked-IsWindow : (b : Breaker) (now : ℕ) → IsWindow b → IsWindow (clear_locked b now)
unfolding clear_locked
clear_locked-IsWindow b now w = record {
  in_range = rw (length-replicate (length b.buckets) empty_bucket) (omega (arith, w.in_range));
  requests_counted = omega (arith, sum_requests-replicate (length b.buckets));
  failures_counted = omega (arith, sum_failures-replicate (length b.buckets));
  sane = replicate-IsSane (length b.buckets);
  wide = w.wide;
}

pub retire_next-IsWindow : (b : Breaker) → IsWindow b → IsWindow (retire_next b)
unfolding retire_next
retire_next-IsWindow b w =
    let i = (b.idx + 1) % length b.buckets in
    let old = get_or b.buckets i empty_bucket in
    let inside : i < length b.buckets = grind (arith, w.in_range) in
    record {
      in_range = rw (length-set b.buckets i empty_bucket) inside;
      requests_counted =
          omega (arith, w.requests_counted, sum_requests-set b.buckets i empty_bucket inside);
      failures_counted =
          omega (arith, w.failures_counted, sum_failures-set b.buckets i empty_bucket inside);
      sane = set-IsSane b.buckets i empty_bucket w.sane (omega arith);
      wide = w.wide;
    }

pub retire-IsWindow : (n : ℕ) (b : Breaker) → IsWindow b → IsWindow (retire n b)
unfolding retire
retire-IsWindow zero b w = w
retire-IsWindow (suc n) b w = retire-IsWindow n (retire_next b) (retire_next-IsWindow b w)

-- How many whole buckets have passed, and whether none has.
abbrev pub rounds : Breaker → ℕ → ℕ
rounds b now = pos_part (sub_ℕ now b.start) / b.bucket_dur

abbrev pub is_early : Breaker → ℕ → Bool
is_early b now = ltb_ℤ (sub_ℕ now b.start) (pos b.bucket_dur)

abbrev pub rolled : Breaker → ℕ → Breaker
rolled b now = record (retire (rounds b now) b) { start = b.start + rounds b now * b.bucket_dur }

-- `advanceLocked` by cases: nothing, everything, or some buckets.
pub advance_cases {ℓ} :
    (P : Breaker → Type ℓ) (b : Breaker) (now : ℕ)
    → (is_early b now ≡ true → P b)
    → (is_early b now ≡ false → length b.buckets ≤ rounds b now → P (clear_locked b now))
    → (is_early b now ≡ false → rounds b now < length b.buckets → P (rolled b now))
    → P (advance_locked b now)
unfolding advance_locked
advance_cases P b now early all_gone some_gone = elim (Bool-cases (is_early b now)) [
  | inl e ↦ rw e (early e)
  | inr e ↦ rw e (elim (Bool-cases (leb (length b.buckets) (rounds b now))) [
    | inl g ↦ rw g (all_gone e (leb→le _ _ g))
    | inr g ↦ rw g (some_gone e (ground arith))
  ])
]

pub advance_locked-IsWindow : (b : Breaker) (now : ℕ) → IsWindow b → IsWindow (advance_locked b now)
advance_locked-IsWindow b now w =
    advance_cases IsWindow b now (λ _. w) (λ _ _. clear_locked-IsWindow b now w)
      (λ _ _. restart (retire-IsWindow (rounds b now) b w))
  where
    restart : {c : Breaker} {t : ℕ} → IsWindow c → IsWindow (record c { start = t })
    restart v = record {
      in_range = v.in_range;
      requests_counted = v.requests_counted;
      failures_counted = v.failures_counted;
      sane = v.sane;
      wide = v.wide;
    }

pub count_locked-IsWindow :
    (b : Breaker) (failed : Bool) → IsWindow b → IsWindow (count_locked b failed)
unfolding count_locked
count_locked-IsWindow b failed w =
    let old = get_or b.buckets b.idx empty_bucket in
    record {
      in_range = rw (length-set b.buckets b.idx (count_in failed old)) w.in_range;
      requests_counted = omega (
        arith,
        w.requests_counted,
        sum_requests-set b.buckets b.idx (count_in failed old) w.in_range,
      );
      failures_counted = omega (
        arith,
        w.failures_counted,
        sum_failures-set b.buckets b.idx (count_in failed old) w.in_range,
      );
      sane =
          set-IsSane b.buckets b.idx (count_in failed old) w.sane
            (ground (arith, get-IsSane b.buckets b.idx w.sane));
      wide = w.wide;
    }

-- ===== src/Circuit/Window.antt =====
-- internal/circuit/circuit.go: the rolling window of a breaker. The counters are Go's `int`, which
-- no run of the program can fill; the subtractions are exact, as Circuit/Invariant shows.
use nw_lb_go.Base.{
  ℕ, zero, suc, ◌+◌, ◌-◌, ◌*◌, ◌/◌, ◌%◌, pos, pos_part, sub_ℕ, leb, ltb_ℤ, Bool, true, false,
  if◌then◌else◌, length, get_or, set, replicate,
}
use nw_lb_go.Circuit.Types.{Bucket, empty_bucket, Breaker}

-- `clear(b.buckets)` keeps the slice and zeroes each bucket.
unfoldable pub clear_locked : Breaker → ℕ → Breaker
clear_locked b now = record b {
  buckets = replicate (length b.buckets) empty_bucket;
  total = empty_bucket;
  idx = 0;
  start = now;
}

-- One round of the loop of `advanceLocked`.
unfoldable pub retire_next : Breaker → Breaker
retire_next b =
    let i = (b.idx + 1) % length b.buckets in
    let old = get_or b.buckets i empty_bucket in
    record b {
      idx = i;
      total = record {
        requests = b.total.requests - old.requests;
        failures = b.total.failures - old.failures;
      };
      buckets = set b.buckets i empty_bucket;
    }

unfoldable pub retire : ℕ → Breaker → Breaker
retire zero b = b
retire (suc n) b = retire n (retire_next b)

unfoldable pub advance_locked : Breaker → ℕ → Breaker
unfolding clear_locked
advance_locked b now =
    let elapsed = sub_ℕ now b.start in
    let n = pos_part elapsed / b.bucket_dur in
    let rolled = retire n b in
    if ltb_ℤ elapsed (pos b.bucket_dur)
    then b
    else if leb (length b.buckets) n
    then clear_locked b now
    else record rolled { start = b.start + n * b.bucket_dur }

abbrev pub to_nat : Bool → ℕ
to_nat true = 1
to_nat false = 0

abbrev pub count_in : Bool → Bucket → Bucket
count_in failed k = record { requests = k.requests + 1; failures = k.failures + to_nat failed }

unfoldable pub count_locked : Breaker → Bool → Breaker
count_locked b failed = record b {
  buckets = set b.buckets b.idx (count_in failed (get_or b.buckets b.idx empty_bucket));
  total = count_in failed b.total;
}

-- ===== src/Circuit/Types.antt =====
-- internal/circuit/circuit.go: the states, the settings with their defaults, and the record of a
-- breaker. Instants are nanoseconds of one clock; `Settings.Now` is the argument `now` of each call.
use nw_lb_go.Base.{
  ℕ, ◌/◌, ℤ, pos, pos_part, leb, leb_ℤ, ltb_ℤ, Bool, false, if◌then◌else◌, List, replicate, Str,
  codes,
}

pub data State : Type 0 where
  state_closed state_open state_half_open : State

unfoldable pub state_string : State → Str
state_string state_closed = codes "closed"
state_string state_open = codes "open"
state_string state_half_open = codes "half-open"

-- `FailureRatio`: the decimal number num / den that a configuration gives.
pub record Ratio : Type 0 where
  pub num : ℤ
  pub den : ℕ

abbrev pub second : ℕ
second = 1_000_000_000

pub record Settings : Type 0 where
  pub window : ℤ
  pub buckets : ℤ
  pub min_requests : ℤ
  pub failure_ratio : Ratio
  pub open_timeout : ℤ
  pub half_open_max : ℤ
  pub max_entries : ℤ
  -- whether `OnStateChange` is set
  pub on_state_change : Bool

abbrev half : Ratio
half = record { num = pos 1; den = 2 }

unfoldable pub normalize : Settings → Settings
normalize s = record s {
  window = if leb_ℤ s.window (pos 0) then pos second else s.window;
  buckets = if ltb_ℤ s.buckets (pos 1) then pos 1 else s.buckets;
  min_requests = if ltb_ℤ s.min_requests (pos 1) then pos 1 else s.min_requests;
  failure_ratio = if leb_ℤ s.failure_ratio.num (pos 0) then half else s.failure_ratio;
  half_open_max = if ltb_ℤ s.half_open_max (pos 1) then pos 1 else s.half_open_max;
}

pub record Bucket : Type 0 where
  pub requests : ℕ
  pub failures : ℕ

abbrev pub empty_bucket : Bucket
empty_bucket = record { requests = 0; failures = 0 }

pub record Transition : Type 0 where
  pub from : State
  pub to : State

pub record Breaker : Type 0 where
  pub name : Str
  pub settings : Settings
  pub bucket_dur : ℕ
  pub fast_state : State
  pub state : State
  pub buckets : List Bucket
  pub idx : ℕ
  pub start : ℕ
  pub total : Bucket
  pub opened_at : ℕ
  pub probes : ℕ
  pub successes : ℕ
  pub gen : ℕ

-- `b` of the source is nil exactly where `bound` is false.
pub record Probe : Type 0 where
  pub bound : Bool
  pub gen : ℕ
  pub probe : Bool

abbrev pub zero_probe : Probe
zero_probe = record { bound = false; gen = 0; probe = false }

unfoldable pub is_probe : Probe → Bool
is_probe p = p.probe

-- The width of a bucket: at least one nanosecond.
unfoldable pub bucket_width : Settings → ℕ
bucket_width s = let d = pos_part s.window / pos_part s.buckets in if leb d 0 then 1 else d

unfoldable pub new_breaker : Str → Settings → ℕ → Breaker
unfolding normalize bucket_width
new_breaker name settings now =
    let s = normalize settings in
    record {
      name = name;
      settings = s;
      bucket_dur = bucket_width s;
      fast_state = state_closed;
      state = state_closed;
      buckets = replicate (pos_part s.buckets) empty_bucket;
      idx = 0;
      start = now;
      total = empty_bucket;
      opened_at = 0;
      probes = 0;
      successes = 0;
      gen = 0;
    }

-- ===== src/Circuit/Defaults.antt =====
-- internal/circuit/circuit.go: `Settings.normalize` and the width of a bucket.
use nw_lb_go.Base.{◌<◌, ◌≡◌, refl, arith, pos_part}
use nw_lb_go.Circuit.Types.{Settings, normalize, bucket_width}

-- The settings that a breaker can work with. `OpenTimeout` may be anything.
pub record IsUsable (s : Settings) : Type 0 where
  pub window_pos : 0 < pos_part s.window
  pub buckets_pos : 0 < pos_part s.buckets
  pub min_requests_pos : 0 < pos_part s.min_requests
  pub ratio_pos : 0 < pos_part s.failure_ratio.num
  pub half_open_max_pos : 0 < pos_part s.half_open_max

pub normalize-IsUsable : (s : Settings) → IsUsable (normalize s)
unfolding normalize
normalize-IsUsable s = record {
  window_pos = ground arith;
  buckets_pos = ground arith;
  min_requests_pos = ground arith;
  ratio_pos = ground arith;
  half_open_max_pos = ground arith;
}

normalize_of_IsUsable : (s : Settings) → IsUsable s → normalize s ≡ s
unfolding normalize
normalize_of_IsUsable s u = ground arith

-- `normalize` makes any settings usable, keeps the open timeout and the callback as they are, and
-- changes nothing in settings that are usable already; so a second call changes nothing.
pub normalize_lem :
    (s : Settings)
    → IsUsable (normalize s)
      × ((normalize s).open_timeout ≡ s.open_timeout)
      × ((normalize s).on_state_change ≡ s.on_state_change)
      × (normalize (normalize s) ≡ normalize s)
normalize_lem s = (
  normalize-IsUsable s,
  unfold normalize in refl,
  unfold normalize in refl,
  normalize_of_IsUsable (normalize s) (normalize-IsUsable s),
)

pub bucket_width_pos : (s : Settings) → 0 < bucket_width s
unfolding bucket_width
bucket_width_pos s = ground arith

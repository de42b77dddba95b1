-- ===== src/Circuit/Invariant.antt =====
-- internal/circuit/circuit.go: what holds of a breaker whenever its mutex is free, and that every
-- method keeps it.
use nw_lb_go.Base.{
  ℕ, ◌+◌, ◌-◌, ◌≤◌, ◌<◌, ◌≡◌, ◌≢◌, refl, List, [], Bool, length, length-replicate, replicate, arith,
  pos_part, Str, Bool-cases, inl, inr,
}
use nw_lb_go.Circuit.Types.{
  State, state_closed, state_open, state_half_open, Settings, Transition, empty_bucket, Breaker,
  Probe, new_breaker, normalize,
}
use nw_lb_go.Circuit.Window.{clear_locked, advance_locked, count_locked}
use nw_lb_go.Circuit.WindowLaws.{
  IsWindow, clear_locked-IsWindow, advance_locked-IsWindow, count_locked-IsWindow, empty-sums,
  replicate-IsSane,
}
use nw_lb_go.Circuit.Defaults.{normalize-IsUsable, bucket_width_pos}
use nw_lb_go.Circuit.Frame.{
  Frame, clear_locked-Frame, advance_locked-Frame, count_locked-Frame, refresh_cases,
}
use nw_lb_go.Circuit.Breaker.{
  set_state_locked, refresh_locked, state, ready, grant, admit, judge, record_outcome, is_current,
  release, reset, same_state,
}

pub record IsControlled (b : Breaker) : Type 0 where
  -- The word that the lock-free path reads is the state.
  pub mirrored : b.fast_state ≡ b.state
  -- Outside half-open no probe is outstanding and no success is booked.
  pub settled : b.state ≢ state_half_open → (b.probes ≡ 0) × (b.successes ≡ 0)
  pub bounded : b.probes ≤ pos_part b.settings.half_open_max
  pub undecided : b.successes < pos_part b.settings.half_open_max

pub record Inv (b : Breaker) : Type 0 where
  pub window : IsWindow b
  pub control : IsControlled b
  pub sized : length b.buckets ≡ pos_part b.settings.buckets

Frame-IsControlled : {b c : Breaker} → Frame b c → IsControlled b → IsControlled c
Frame-IsControlled f k = ground arith

pub clear_locked-Inv : (b : Breaker) (now : ℕ) → Inv b → Inv (clear_locked b now)
clear_locked-Inv b now v =
    let f = clear_locked-Frame b now in
    record {
      window = clear_locked-IsWindow b now v.window;
      control = Frame-IsControlled f v.control;
      sized = ground arith;
    }

pub advance_locked-Inv : (b : Breaker) (now : ℕ) → Inv b → Inv (advance_locked b now)
advance_locked-Inv b now v =
    let f = advance_locked-Frame b now in
    record {
      window = advance_locked-IsWindow b now v.window;
      control = Frame-IsControlled f v.control;
      sized = ground arith;
    }

pub count_locked-Inv : (b : Breaker) (failed : Bool) → Inv b → Inv (count_locked b failed)
count_locked-Inv b failed v =
    let f = count_locked-Frame b failed in
    record {
      window = count_locked-IsWindow b failed v.window;
      control = Frame-IsControlled f v.control;
      sized = ground arith;
    }

-- A breaker that differs in its control fields only, and meets their invariant.
recontrolled :
    {b c : Breaker}
    → Inv b
    → IsControlled c
    → c.buckets ≡ b.buckets
    → c.idx ≡ b.idx
    → c.total ≡ b.total
    → c.bucket_dur ≡ b.bucket_dur
    → c.settings ≡ b.settings
    → Inv c
recontrolled v k bs i t d s = ground arith

pub set_state_locked-Inv :
    (b : Breaker) (trs : List Transition) (to : State) (now : ℕ)
    → Inv b
    → Inv (set_state_locked b trs to now).0
unfolding set_state_locked
set_state_locked-Inv b trs state_closed now v =
    elim (Bool-cases (same_state b.state state_closed)) [
      | inl e ↦ rw e v
      | inr e ↦
          rw e (
            clear_locked-Inv _ now (recontrolled {b = b} v (ground arith) refl refl refl refl refl))
    ]
set_state_locked-Inv b trs state_open now v = ground arith
set_state_locked-Inv b trs state_half_open now v = ground arith

pub refresh_locked-Inv :
    (b : Breaker) (now : ℕ) (trs : List Transition) → Inv b → Inv (refresh_locked b now trs).0
refresh_locked-Inv b now trs v =
    refresh_cases (λ r. Inv r.0) b now trs (λ _. advance_locked-Inv b now v)
      (λ _.
        set_state_locked-Inv (advance_locked b now) trs state_half_open now
          (advance_locked-Inv b now v))

pub new_breaker-Inv : (name : Str) (s : Settings) (now : ℕ) → Inv (new_breaker name s now)
unfolding new_breaker
new_breaker-Inv name s now =
    let n = normalize s in
    let u = normalize-IsUsable s in
    let k = pos_part n.buckets in
    let sized : length (replicate k empty_bucket) ≡ k = length-replicate k empty_bucket in
    record {
      window = record {
        in_range = rw sized u.buckets_pos;
        requests_counted = omega (arith, empty-sums k);
        failures_counted = omega (arith, empty-sums k);
        sane = replicate-IsSane k;
        wide = bucket_width_pos n;
      };
      control = record {
        mirrored = refl;
        settled = λ _. (refl, refl);
        bounded = omega arith;
        undecided = u.half_open_max_pos;
      };
      sized = sized;
    }

grant-Inv : (s : State) (b : Breaker) → b.state ≡ s → Inv b → Inv (grant s b).0
unfolding grant
grant-Inv state_closed b e v = v
grant-Inv state_open b e v = v
grant-Inv state_half_open b e v = ground arith

-- Closing from half-open forgets the successes, so the one that closes the breaker may be booked.
close_forgets :
    (b : Breaker) (n : ℕ) (trs : List Transition) (now : ℕ)
    → b.state ≡ state_half_open
    → set_state_locked (record b { successes = n }) trs state_closed now
      ≡ set_state_locked b trs state_closed now
unfolding set_state_locked
close_forgets b n trs now e = ground arith

judge-Inv :
    (s : State) (b : Breaker) (current failed : Bool) (now : ℕ) (trs : List Transition)
    → b.state ≡ s
    → Inv b
    → Inv (judge s b current failed now trs).0
unfolding judge
judge-Inv state_closed b current failed now trs e v =
    ground (arith, set_state_locked-Inv b trs state_open now v)
judge-Inv state_open b current failed now trs e v = v
judge-Inv state_half_open b current failed now trs e v =
    let p = record b { probes = b.probes - 1 } in
    let q : Inv p = recontrolled {b = b} v (ground arith) refl refl refl refl refl in
    ground (
      arith,
      set_state_locked-Inv p trs state_open now q,
      set_state_locked-Inv p trs state_closed now q,
      close_forgets p (b.successes + 1) trs now e,
    )

pub record_outcome-Inv :
    (b : Breaker) (failed : Bool) (p : Probe) (now : ℕ)
    → Inv b
    → Inv (record_outcome b failed p now).0
unfolding record_outcome
record_outcome-Inv b failed p now v =
    let r = (refresh_locked b now []).0 in
    let c = count_locked r failed in
    judge-Inv c.state c (is_current c p) failed now (refresh_locked b now []).1 refl
      (count_locked-Inv r failed (refresh_locked-Inv b now [] v))

pub admit-Inv : (b : Breaker) (now : ℕ) → Inv b → Inv (admit b now).0
unfolding admit
admit-Inv b now v =
    let r = (refresh_locked b now []).0 in
    let g = grant-Inv r.state r refl (refresh_locked-Inv b now [] v) in ground (arith, g)

pub state-Inv : (b : Breaker) (now : ℕ) → Inv b → Inv (state b now).0
unfolding state
state-Inv b now v = ground (arith, refresh_locked-Inv b now [] v)

pub ready-Inv : (b : Breaker) (now : ℕ) → Inv b → Inv (ready b now).0
unfolding ready
ready-Inv b now v = ground (arith, refresh_locked-Inv b now [] v)

pub release-Inv : (b : Breaker) (p : Probe) → Inv b → Inv (release b p)
unfolding release
release-Inv b p v = ground arith

pub reset-Inv : (b : Breaker) (now : ℕ) → Inv b → Inv (reset b now).0
unfolding reset
reset-Inv b now v =
    let s = (set_state_locked b [] state_closed now).0 in
    let c = clear_locked-Inv s now (set_state_locked-Inv b [] state_closed now v) in
    recontrolled {b = clear_locked s now} c (ground (arith, c.control)) refl refl refl refl refl

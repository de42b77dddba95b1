-- ===== src/Circuit/Breaker.antt =====
-- internal/circuit/circuit.go: the methods of `Breaker` and `Probe`. A method returns the breaker
-- that it leaves, its result, and the calls of `OnStateChange` that it makes, in order.
use nw_lb_go.Base.{
  ℕ, ◌+◌, ◌-◌, ◌*◌, ◌^◌, ◌%◌, pos, pos_part, sub_ℕ, leb, ltb, ◌==◌, leb_ℤ, ltb_ℤ, Bool, true, false,
  ◌&&◌, ◌||◌, if◌then◌else◌, List, [], map, snoc, Str,
}
use nw_lb_go.Circuit.Types.{
  State, state_closed, state_open, state_half_open, Bucket, Ratio, Transition, Breaker, Probe,
  zero_probe,
}
use nw_lb_go.Circuit.Window.{clear_locked, advance_locked, count_locked}

-- A `uint64` wraps.
abbrev pub u64 : ℕ → ℕ
u64 n = n % 2 ^ 64

abbrev pub is_closed : State → Bool
is_closed state_closed = true
is_closed _ = false

abbrev pub is_open : State → Bool
is_open state_open = true
is_open _ = false

abbrev pub is_half_open : State → Bool
is_half_open state_half_open = true
is_half_open _ = false

abbrev pub same_state : State → State → Bool
same_state state_closed t = is_closed t
same_state state_open t = is_open t
same_state state_half_open t = is_half_open t

-- The last switch of `setStateLocked`.
enter : State → Breaker → ℕ → Breaker
enter state_half_open b now = record b { gen = u64 (b.gen + 1) }
enter state_open b now = record b { opened_at = now }
enter state_closed b now = clear_locked b now

unfoldable pub set_state_locked : Breaker → List Transition → State → ℕ → Breaker × List Transition
unfolding enter
set_state_locked b trs to now = if same_state b.state to then (b, trs) else (
  enter to (record b { state = to; fast_state = to; probes = 0; successes = 0 }) now,
  snoc trs (record { from = b.state; to = to }),
)

unfoldable pub refresh_locked : Breaker → ℕ → List Transition → Breaker × List Transition
unfolding set_state_locked
refresh_locked b now trs =
    let a = advance_locked b now in
    if is_open a.state && leb_ℤ a.settings.open_timeout (sub_ℕ now a.opened_at)
    then set_state_locked a trs state_half_open now
    else (a, trs)

-- A call of `OnStateChange`: the name, `from` and `to`.
pub record Call : Type 0 where
  pub name : Str
  pub from : State
  pub to : State

unfoldable pub fire : Breaker → List Transition → List Call
fire b trs =
    if b.settings.on_state_change
    then map (λ t. record { name = b.name; from = t.from; to = t.to }) trs
    else []

-- `float64(failures)/float64(requests) >= ratio`, multiplied out.
unfoldable pub reaches : Bucket → Ratio → Bool
reaches k r = leb (pos_part r.num * k.requests) (k.failures * r.den)

abbrev pub has_room : Breaker → Bool
has_room b = ltb_ℤ (pos b.probes) b.settings.half_open_max

unfoldable pub state : Breaker → ℕ → Breaker × State × List Call
state b now =
    let (r, trs) = refresh_locked b now [] in
    if is_closed b.fast_state then (b, state_closed, []) else (r, r.state, fire r trs)

unfoldable pub ready : Breaker → ℕ → Breaker × Bool × List Call
ready b now =
    let (r, trs) = refresh_locked b now [] in
    if is_closed b.fast_state
    then (b, true, [])
    else (r, is_closed r.state || (is_half_open r.state && has_room r), fire r trs)

unfoldable pub unattributed : Breaker → Probe
unattributed b = record zero_probe { bound = true }

-- The switch of `Admit`.
unfoldable pub grant : State → Breaker → Breaker × Probe × Bool
grant state_closed b = (b, record { bound = true; gen = 0; probe = false }, true)
grant state_open b = (b, record { bound = true; gen = 0; probe = false }, false)
grant state_half_open b =
    if has_room b
    then (
      record b { probes = b.probes + 1 },
      record { bound = true; gen = b.gen; probe = true },
      true,
    )
    else (b, record { bound = true; gen = 0; probe = false }, false)

unfoldable pub admit : Breaker → ℕ → Breaker × Probe × Bool × List Call
unfolding grant
admit b now =
    let (r, trs) = refresh_locked b now [] in
    let (g, p, allowed) = grant r.state r in
    if is_closed b.fast_state
    then (b, record { bound = true; gen = 0; probe = false }, true, [])
    else (g, p, allowed, fire g trs)

-- The switch of `record`.
unfoldable pub judge :
    State → Breaker → Bool → Bool → ℕ → List Transition → Breaker × List Transition
judge state_closed b current failed now trs =
    if leb_ℤ b.settings.min_requests (pos b.total.requests)
      && reaches b.total b.settings.failure_ratio
    then set_state_locked b trs state_open now
    else (b, trs)
judge state_half_open b current failed now trs =
    let p = record b { probes = b.probes - 1 } in
    let s = record p { successes = b.successes + 1 } in
    if current
    then (if failed
        then set_state_locked p trs state_open now
        else if leb_ℤ s.settings.half_open_max (pos s.successes)
        then set_state_locked s trs state_closed now
        else (s, trs))
    else (b, trs)
judge state_open b current failed now trs = (b, trs)

unfoldable pub is_current : Breaker → Probe → Bool
is_current b p = p.probe && p.gen == b.gen && is_half_open b.state

unfoldable pub record_outcome : Breaker → Bool → Probe → ℕ → Breaker × List Call
unfolding judge is_current
record_outcome b failed p now =
    let (r, trs) = refresh_locked b now [] in
    let c = count_locked r failed in
    let (j, out) = judge c.state c (is_current c p) failed now trs in (j, fire j out)

-- `Breaker.Success` and `Breaker.Failure`.
unfoldable pub success : Breaker → ℕ → Breaker × List Call
success b now = record_outcome b false zero_probe now

unfoldable pub failure : Breaker → ℕ → Breaker × List Call
failure b now = record_outcome b true zero_probe now

-- `Probe.Success` and `Probe.Failure`; `b` is the breaker that the probe is bound to.
unfoldable pub probe_success : Breaker → Probe → ℕ → Breaker × List Call
probe_success b p now = if p.bound then record_outcome b false p now else (b, [])

unfoldable pub probe_failure : Breaker → Probe → ℕ → Breaker × List Call
probe_failure b p now = if p.bound then record_outcome b true p now else (b, [])

-- `release`: the slot comes back only to the episode that the probe was admitted in.
unfoldable pub release : Breaker → Probe → Breaker
release b p =
    if p.gen == b.gen && is_half_open b.state && ltb 0 b.probes
    then record b { probes = b.probes - 1 }
    else b

unfoldable pub probe_release : Breaker → Probe → Breaker
unfolding release
probe_release b p = if p.bound && p.probe then release b p else b

unfoldable pub counts : Breaker → ℕ → Breaker × ℕ × ℕ
counts b now = let a = advance_locked b now in (a, a.total.requests, a.total.failures)

unfoldable pub reset : Breaker → ℕ → Breaker × List Call
reset b now =
    let (c, trs) = set_state_locked b [] state_closed now in
    let r = record (clear_locked c now) { probes = 0; successes = 0 } in (r, fire r trs)

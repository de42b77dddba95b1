-- ===== src/Circuit/Callbacks.antt =====
-- internal/circuit/circuit.go: the transitions that a method reports to `OnStateChange`.
use nw_lb_go.Base.{
  ℕ, ◌+◌, ◌-◌, ◌≡◌, refl, sym, ◌∙◌, List, [], ◌∷◌, Bool, true, false, arith, snoc, inl, inr,
  Bool-cases, map,
}
use nw_lb_go.Circuit.Types.{
  State, state_closed, state_open, state_half_open, Transition, Breaker, Probe,
}
use nw_lb_go.Circuit.Window.{clear_locked, count_locked}
use nw_lb_go.Circuit.Frame.{advance_locked-Frame, count_locked-Frame, refresh_cases}
use nw_lb_go.Circuit.Breaker.{
  Call, fire, refresh_locked, judge, record_outcome, is_current, set_state_locked, same_state,
  is_closed, state, ready, admit, grant,
}

-- The edges of the state diagram that requests and the timer follow.
abbrev pub edge : State → State → Bool
edge state_closed state_open = true
edge state_open state_half_open = true
edge state_half_open state_open = true
edge state_half_open state_closed = true
edge _ _ = false

-- The transitions lead along edges from `s` to `t`, each from where the last one ended.
abbrev pub Walk : State → List Transition → State → Type 0
Walk s [] t = s ≡ t
Walk s (c ∷ cs) t = (c.from ≡ s) × (edge c.from c.to ≡ true) × Walk c.to cs t

pub Walk-snoc :
    (s t : State) (cs : List Transition) (c : Transition)
    → Walk s cs t
    → c.from ≡ t
    → edge c.from c.to ≡ true
    → Walk s (snoc cs c) c.to
Walk-snoc s t [] c w e g = (e ∙ sym w, g, refl)
Walk-snoc s t (d ∷ cs) c w e g = (w.0, w.1, Walk-snoc d.to t cs c w.2 e g)

refresh_locked-Walk :
    (b : Breaker) (now : ℕ)
    → Walk b.state (refresh_locked b now []).1 (refresh_locked b now []).0.state
unfolding set_state_locked
refresh_locked-Walk b now =
    let f = advance_locked-Frame b now in
    refresh_cases (λ r. Walk b.state r.1 r.0.state) b now [] (λ _. sym f.state_eq)
      (λ e. ground arith)

edge-ne : (s t : State) → edge s t ≡ true → same_state s t ≡ false
edge-ne s t h = ground arith

set_state_locked-Walk :
    (s : State) (b : Breaker) (trs : List Transition) (to : State) (now : ℕ)
    → Walk s trs b.state
    → edge b.state to ≡ true
    → Walk s (set_state_locked b trs to now).1 (set_state_locked b trs to now).0.state
unfolding set_state_locked clear_locked
set_state_locked-Walk s b trs state_closed now w g =
    rw (edge-ne b.state state_closed g) (Walk-snoc s b.state trs _ w refl g)
set_state_locked-Walk s b trs state_open now w g =
    rw (edge-ne b.state state_open g) (Walk-snoc s b.state trs _ w refl g)
set_state_locked-Walk s b trs state_half_open now w g =
    rw (edge-ne b.state state_half_open g) (Walk-snoc s b.state trs _ w refl g)

judge-Walk :
    (s t : State) (b : Breaker) (current failed : Bool) (now : ℕ) (trs : List Transition)
    → b.state ≡ t
    → Walk s trs b.state
    → Walk s (judge t b current failed now trs).1 (judge t b current failed now trs).0.state
unfolding judge
judge-Walk s state_closed b current failed now trs e w =
    ground (arith, set_state_locked-Walk s b trs state_open now w (rw e))
judge-Walk s state_open b current failed now trs e w = w
judge-Walk s state_half_open b current failed now trs e w =
    let p = record b { probes = b.probes - 1 } in
    let q = record p { successes = b.successes + 1 } in
    ground (
      arith,
      set_state_locked-Walk s p trs state_open now w (rw e),
      set_state_locked-Walk s q trs state_closed now w (rw e),
    )

-- The same walk, read off the calls of `OnStateChange`.
abbrev pub Calls : State → List Call → State → Type 0
Calls s [] t = s ≡ t
Calls s (c ∷ cs) t = (c.from ≡ s) × (edge c.from c.to ≡ true) × Calls c.to cs t

Walk-Calls :
    (b : Breaker) (s t : State) (trs : List Transition)
    → Walk s trs t
    → Calls s (map (λ t. record { name = b.name; from = t.from; to = t.to }) trs) t
Walk-Calls b s t [] w = w
Walk-Calls b s t (c ∷ cs) w = (w.0, w.1, Walk-Calls b c.to t cs w.2)

fire-Calls :
    (b : Breaker) (s t : State) (trs : List Transition)
    → b.settings.on_state_change ≡ true
    → Walk s trs t
    → Calls s (fire b trs) t
unfolding fire
fire-Calls b s t trs h w = rw h (Walk-Calls b s t trs w)

judge-settings :
    (t : State) (b : Breaker) (current failed : Bool) (now : ℕ) (trs : List Transition)
    → (judge t b current failed now trs).0.settings ≡ b.settings
unfolding judge set_state_locked clear_locked
judge-settings state_closed b current failed now trs = ground arith
judge-settings state_open b current failed now trs = refl
judge-settings state_half_open b current failed now trs = ground arith

refresh_locked-settings :
    (b : Breaker) (now : ℕ) → (refresh_locked b now []).0.settings ≡ b.settings
unfolding set_state_locked
refresh_locked-settings b now =
    let f = advance_locked-Frame b now in
    refresh_cases (λ r. r.0.settings ≡ b.settings) b now [] (λ _. f.settings_eq) (λ e. ground arith)

-- The calls of `OnStateChange`, where it is set, that one outcome causes, in order, lead along edges of the state
-- diagram from the state before it to the state after it: no transition is missed, invented or
-- reported twice.
pub record_outcome-Calls :
    (b : Breaker) (failed : Bool) (p : Probe) (now : ℕ)
    → b.settings.on_state_change ≡ true
    → Calls b.state (record_outcome b failed p now).1 (record_outcome b failed p now).0.state
unfolding record_outcome
record_outcome-Calls b failed p now h =
    let r = (refresh_locked b now []).0 in
    let trs = (refresh_locked b now []).1 in
    let c = count_locked r failed in
    let f = count_locked-Frame r failed in
    let w : Walk b.state trs c.state = rw f.state_eq (refresh_locked-Walk b now) in
    fire-Calls _ b.state _ _
      (rw (judge-settings c.state c, f.settings_eq, refresh_locked-settings b now) h)
      (judge-Walk b.state c.state c (is_current c p) failed now trs refl w)

module _ (b : Breaker) (now : ℕ) (set : b.settings.on_state_change ≡ true) where
  refreshed-Calls :
      Calls b.state
        (fire (refresh_locked b now []).0 (refresh_locked b now []).1)
        (refresh_locked b now []).0.state
  refreshed-Calls =
      fire-Calls _ b.state _ _ (rw (refresh_locked-settings b now) set) (refresh_locked-Walk b now)

  state-Calls : Calls b.state (state b now).2 (state b now).0.state
  unfolding state
  state-Calls = elim (Bool-cases (is_closed b.fast_state)) [
    | inl e ↦ rw e refl
    | inr e ↦ rw e refreshed-Calls
  ]

  ready-Calls : Calls b.state (ready b now).2 (ready b now).0.state
  unfolding ready
  ready-Calls = elim (Bool-cases (is_closed b.fast_state)) [
    | inl e ↦ rw e refl
    | inr e ↦ rw e refreshed-Calls
  ]

  grant-Calls :
      (t : State)
      → (fire (grant t (refresh_locked b now []).0).0 (refresh_locked b now []).1
          ≡ fire (refresh_locked b now []).0 (refresh_locked b now []).1)
        × ((grant t (refresh_locked b now []).0).0.state ≡ (refresh_locked b now []).0.state)
  unfolding grant fire
  grant-Calls state_closed = (refl, refl)
  grant-Calls state_open = (refl, refl)
  grant-Calls state_half_open = ground arith

  admit-Calls : Calls b.state (admit b now).3 (admit b now).0.state
  unfolding admit
  admit-Calls = elim (Bool-cases (is_closed b.fast_state)) [
    | inl e ↦ rw e refl
    | inr e ↦
        let (f, s) = grant-Calls (refresh_locked b now []).0.state in
        rw e (rw (f, s) refreshed-Calls)
  ]

  -- So do those of a request for admission, of `Ready` and of `State`, each of which may find the
  -- timer of an open breaker expired.
  pub asking-Calls :
      Calls b.state (admit b now).3 (admit b now).0.state
      × Calls b.state (ready b now).2 (ready b now).0.state
      × Calls b.state (state b now).2 (state b now).0.state
  asking-Calls = (admit-Calls, ready-Calls, state-Calls)

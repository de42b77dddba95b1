-- ===== src/Circuit/Foretell.antt =====
-- internal/circuit/circuit.go: `Ready` against `Admit`.
use nw_lb_go.Base.{ℕ, ◌≡◌, ◌∙◌, [], Bool, false, ◌&&◌, ◌||◌, arith, inl, inr, Bool-cases}
use nw_lb_go.Circuit.Types.{Breaker}
use nw_lb_go.Circuit.Frame.{Frame, advance_locked-Frame, refresh_cases, is_expired}
use nw_lb_go.Circuit.Breaker.{
  refresh_locked, set_state_locked, ready, grant, admit, has_room, is_closed, is_half_open,
}
use nw_lb_go.Circuit.Invariant.{Inv, refresh_locked-Inv}

-- What a refreshed breaker grants.
abbrev offers : Breaker → Bool
offers b = is_closed b.state || (is_half_open b.state && has_room b)

grant-offers : (b : Breaker) → (grant b.state b).2 ≡ offers b
unfolding grant
grant-offers b = ground arith

pub admit-ready : (b : Breaker) (now : ℕ) → (admit b now).2 ≡ (ready b now).1
unfolding admit ready
admit-ready b now = ground (arith, grant-offers (refresh_locked b now []).0)

refresh-unexpired : (b : Breaker) (now : ℕ) → is_expired (refresh_locked b now []).0 now ≡ false
unfolding set_state_locked
refresh-unexpired b now =
    let f = advance_locked-Frame b now in
    refresh_cases (λ r. is_expired r.0 now ≡ false) b now []
      (λ e. rw (f.state_eq, f.settings_eq, f.opened_eq) e) (λ e. ground arith)

-- A breaker that was just refreshed stays as it is, its window apart.
refresh-again :
    (b : Breaker) (now : ℕ) → is_expired b now ≡ false → Frame b (refresh_locked b now []).0
refresh-again b now e =
    refresh_cases (λ r. Frame b r.0) b now [] (λ _. advance_locked-Frame b now) (λ h. cc)

refresh-probes : (b : Breaker) (now : ℕ) → Inv b → (refresh_locked b now []).0.probes ≡ b.probes
unfolding set_state_locked
refresh-probes b now v =
    let f = advance_locked-Frame b now in
    let settled = v.control.settled in
    refresh_cases (λ r. r.0.probes ≡ b.probes) b now [] (λ _. f.probes_eq) (λ h. ground arith)

ready-probes : (b : Breaker) (now : ℕ) → Inv b → (ready b now).0.probes ≡ b.probes
unfolding ready
ready-probes b now v = ground (arith, refresh-probes b now v)

ready-again : (b : Breaker) (now : ℕ) → Inv b → (ready (ready b now).0 now).1 ≡ (ready b now).1
unfolding ready
ready-again b now v =
    let r = (refresh_locked b now []).0 in
    let f = refresh-again r now (refresh-unexpired b now) in
    let mirrored = (refresh_locked-Inv b now [] v).control.mirrored in
    elim (Bool-cases (is_closed b.fast_state)) [
      | inl shut ↦ rw (shut, ready, shut)
      | inr busy ↦ elim (Bool-cases (is_closed r.fast_state)) [
        | inl now_shut ↦ ground (arith, f, mirrored)
        | inr still ↦ ground (arith, f, mirrored)
      ]
    ]

-- A breaker that keeps the invariant reserves nothing when it is asked `Ready`: no slot is taken, and
-- the answer is what `Admit` would answer at that instant, asked instead or asked next.
pub ready_foretells :
    (b : Breaker) (now : ℕ)
    → Inv b
    → ((ready b now).0.probes ≡ b.probes)
      × ((admit b now).2 ≡ (ready b now).1)
      × ((admit (ready b now).0 now).2 ≡ (ready b now).1)
ready_foretells b now v =
    (ready-probes b now v, admit-ready b now, admit-ready (ready b now).0 now ∙ ready-again b now v)

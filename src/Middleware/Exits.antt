-- ===== src/Middleware/Exits.antt =====
-- internal/middleware/circuitbreaker.go: a probe is resolved on every exit, a panic included.
use nw_lb_go.Base.{ℕ, ◌+◌, ◌≡◌, refl, ◌↔◌, Bool, true, false, none, some, leb_ℤ, pos}
use nw_lb_go.Circuit.Types.{Breaker, Probe, state_open, state_closed, state_half_open}
use nw_lb_go.Circuit.Breaker.{record_outcome, probe_success, probe_failure}
use nw_lb_go.Circuit.Episodes.{belongs}
use nw_lb_go.Circuit.Verdicts.{half_open_verdict}
use nw_lb_go.Middleware.Guard.{
  unavailable, deadline_exceeded, internal, resource_exhausted, unknown, other_code, is_failure,
  Outcome, returned, panicked, settle,
}

-- A panic, or one of the codes that say that the server or the way to it is unwell.
abbrev pub is_bad : Outcome → Bool
is_bad panicked = true
is_bad (returned none) = false
is_bad (returned (some unavailable)) = true
is_bad (returned (some deadline_exceeded)) = true
is_bad (returned (some internal)) = true
is_bad (returned (some resource_exhausted)) = true
is_bad (returned (some unknown)) = true
is_bad (returned (some (other_code n))) = false

settle-record_outcome :
    (b : Breaker) (p : Probe) (o : Outcome) (now : ℕ)
    → p.bound ≡ true
    → settle b p o now ≡ record_outcome b (is_bad o) p now
unfolding settle is_failure probe_success probe_failure
settle-record_outcome b p panicked now e = rw e refl
settle-record_outcome b p (returned none) now e = rw e refl
settle-record_outcome b p (returned (some unavailable)) now e = rw e refl
settle-record_outcome b p (returned (some deadline_exceeded)) now e = rw e refl
settle-record_outcome b p (returned (some internal)) now e = rw e refl
settle-record_outcome b p (returned (some resource_exhausted)) now e = rw e refl
settle-record_outcome b p (returned (some unknown)) now e = rw e refl
settle-record_outcome b p (returned (some (other_code n))) now e = rw e refl

-- A call that was admitted as a probe of the running half-open episode decides it however it ends: the
-- breaker reopens exactly on a panic or one of the five codes of an unwell server, and closes exactly on
-- any other end, a client's own error included, when that is the HalfOpenMax-th.
pub settle_verdict :
    (b : Breaker) (p : Probe) (o : Outcome) (now : ℕ)
    → p.bound ≡ true
    → b.state ≡ state_half_open
    → belongs b.gen p ≡ true
    → (((settle b p o now).0.state ≡ state_open) ↔ (is_bad o ≡ true))
      × (((settle b p o now).0.state ≡ state_closed)
          ↔ ((is_bad o ≡ false) × (leb_ℤ b.settings.half_open_max (pos (b.successes + 1)) ≡ true)))
settle_verdict b p o now bound half mine =
    let v = half_open_verdict b (is_bad o) p now half in
    rw (settle-record_outcome b p o now bound) (
      (λ h. (v.0.0 h).1, λ h. v.0.1 (mine, h)),
      (λ h. ((v.1.0 h).1, (v.1.0 h).2), λ h. v.1.1 (mine, h.0, h.1)),
    )

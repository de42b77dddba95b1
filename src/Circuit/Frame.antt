-- ===== src/Circuit/Frame.antt =====
-- internal/circuit/circuit.go: what the window's operations leave alone, and `refreshLocked` by its
-- two cases.
use nw_lb_go.Base.{
  ℕ, zero, suc, ◌%◌, ◌+◌, ◌≡◌, ◌∙◌, inl, inr, List, Bool, true, false, ◌&&◌, length, get_or,
  length-set, length-replicate, arith, sub_ℕ, leb_ℤ, Bool-cases,
}
use nw_lb_go.Circuit.Types.{state_half_open, Transition, empty_bucket, Breaker}
use nw_lb_go.Circuit.Window.{
  clear_locked, retire_next, retire, advance_locked, count_locked, count_in,
}
use nw_lb_go.Circuit.WindowLaws.{rounds, rolled, advance_cases}
use nw_lb_go.Circuit.Breaker.{is_open, refresh_locked, set_state_locked}

-- The control fields of two breakers agree, and their windows have the same size.
pub record Frame (b c : Breaker) : Type 0 where
  pub settings_eq : c.settings ≡ b.settings
  pub name_eq : c.name ≡ b.name
  pub dur_eq : c.bucket_dur ≡ b.bucket_dur
  pub fast_eq : c.fast_state ≡ b.fast_state
  pub state_eq : c.state ≡ b.state
  pub size_eq : length c.buckets ≡ length b.buckets
  pub opened_eq : c.opened_at ≡ b.opened_at
  pub probes_eq : c.probes ≡ b.probes
  pub successes_eq : c.successes ≡ b.successes
  pub gen_eq : c.gen ≡ b.gen

pub Frame-refl : (b : Breaker) → Frame b b
Frame-refl b = ground arith

pub Frame-trans : {a b c : Breaker} → Frame a b → Frame b c → Frame a c
Frame-trans f g = record {
  settings_eq = g.settings_eq ∙ f.settings_eq;
  name_eq = g.name_eq ∙ f.name_eq;
  dur_eq = g.dur_eq ∙ f.dur_eq;
  fast_eq = g.fast_eq ∙ f.fast_eq;
  state_eq = g.state_eq ∙ f.state_eq;
  size_eq = g.size_eq ∙ f.size_eq;
  opened_eq = g.opened_eq ∙ f.opened_eq;
  probes_eq = g.probes_eq ∙ f.probes_eq;
  successes_eq = g.successes_eq ∙ f.successes_eq;
  gen_eq = g.gen_eq ∙ f.gen_eq;
}

pub clear_locked-Frame : (b : Breaker) (now : ℕ) → Frame b (clear_locked b now)
unfolding clear_locked
clear_locked-Frame b now = ground (arith, length-replicate (length b.buckets) empty_bucket)

retire_next-Frame : (b : Breaker) → Frame b (retire_next b)
unfolding retire_next
retire_next-Frame b =
    ground (arith, length-set b.buckets ((b.idx + 1) % length b.buckets) empty_bucket)

pub retire-Frame : (n : ℕ) (b : Breaker) → Frame b (retire n b)
unfolding retire
retire-Frame zero b = Frame-refl b
retire-Frame (suc n) b = Frame-trans (retire_next-Frame b) (retire-Frame n (retire_next b))

pub advance_locked-Frame : (b : Breaker) (now : ℕ) → Frame b (advance_locked b now)
advance_locked-Frame b now =
    advance_cases (Frame b) b now (λ _. Frame-refl b) (λ _ _. clear_locked-Frame b now)
      (λ _ _. Frame-trans (retire-Frame (rounds b now) b) restarted)
  where
    restarted : Frame (retire (rounds b now) b) (rolled b now)
    restarted = ground arith

pub count_locked-Frame : (b : Breaker) (failed : Bool) → Frame b (count_locked b failed)
unfolding count_locked
count_locked-Frame b failed =
    ground
      (arith, length-set b.buckets b.idx (count_in failed (get_or b.buckets b.idx empty_bucket)))

-- Whether `refreshLocked` finds the open timer expired.
abbrev pub is_expired : Breaker → ℕ → Bool
is_expired b now = is_open b.state && leb_ℤ b.settings.open_timeout (sub_ℕ now b.opened_at)

-- `refreshLocked` advances the window and, if the timer of an open breaker has expired, enters
-- half-open; nothing else.
pub refresh_cases {ℓ} :
    (P : Breaker × List Transition → Type ℓ) (b : Breaker) (now : ℕ) (trs : List Transition)
    → (is_expired b now ≡ false → P (advance_locked b now, trs))
    → (is_expired b now ≡ true
        → P (set_state_locked (advance_locked b now) trs state_half_open now))
    → P (refresh_locked b now trs)
unfolding refresh_locked
refresh_cases P b now trs stay expire =
    let f = advance_locked-Frame b now in
    elim (Bool-cases (is_expired (advance_locked b now) now)) [
      | inl e ↦ rw e (expire (rw (f.state_eq, f.settings_eq, f.opened_eq) at e))
      | inr e ↦ rw e (stay (rw (f.state_eq, f.settings_eq, f.opened_eq) at e))
    ]

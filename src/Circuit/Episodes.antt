-- ===== src/Circuit/Episodes.antt =====
-- internal/circuit/circuit.go: probes are attributed to the half-open episode that admitted them.
use nw_lb_go.Base.{
  ℕ, zero, suc, ◌+◌, ◌-◌, ◌^◌, ◌≤◌, ◌<◌, ◌≡◌, refl, sym, List, [], ◌∷◌, Bool, true, false, arith,
  some, Option-cases, inl, inr, ◌==◌, ◌&&◌, ◌||◌, not, ◌∙◌, Bool-cases,
}
use nw_lb_go.Circuit.Types.{
  State, state_closed, state_open, state_half_open, Transition, Breaker, Probe, zero_probe,
}
use nw_lb_go.Circuit.Window.{to_nat, advance_locked, clear_locked, count_locked}
use nw_lb_go.Circuit.Frame.{Frame, advance_locked-Frame, count_locked-Frame, refresh_cases}
use nw_lb_go.Circuit.Breaker.{
  u64, set_state_locked, refresh_locked, state, ready, grant, admit, judge, record_outcome,
  is_current, success, failure, probe_success, probe_failure, probe_release, counts, reset,
}
use nw_lb_go.Circuit.Trace.{take_out, resolve, book}

abbrev pub belongs : ℕ → Probe → Bool
belongs g p = p.probe && p.gen == g

-- How many of the held probes were admitted in episode `g`.
abbrev pub tally : ℕ → List Probe → ℕ
tally g [] = 0
tally g (p ∷ ps) = to_nat (belongs g p) + tally g ps

-- Every held slot is bound to the breaker, and no held probe is from a later episode than `g`.
abbrev pub Dated : ℕ → List Probe → Type 0
Dated g [] = Unit {0}
Dated g (p ∷ ps) = (p.gen ≤ g) × ((p.bound || not p.probe) ≡ true) × Dated g ps

-- The slots in use are those of the held probes of the running episode.
pub record IsAccounted (b : Breaker) (ps : List Probe) : Type 0 where
  pub counted : b.state ≡ state_half_open → b.probes ≡ tally b.gen ps
  pub dated : Dated b.gen ps

pub Dated-mono : (g h : ℕ) (ps : List Probe) → g ≤ h → Dated g ps → Dated h ps
Dated-mono g h [] le d = tt
Dated-mono g h (p ∷ ps) le d = (omega arith, d.1, Dated-mono g h ps le d.2)

tally-new : (g : ℕ) (ps : List Probe) → Dated g ps → tally (suc g) ps ≡ 0
tally-new g [] d = refl
tally-new g (p ∷ ps) d = ground (arith, tally-new g ps d.2)

pub take_out-tally :
    (g i : ℕ) (ps : List Probe) (p : Probe) (rest : List Probe)
    → take_out i ps ≡ some (p, rest)
    → tally g ps ≡ to_nat (belongs g p) + tally g rest
unfolding take_out
take_out-tally g i [] p rest e = cc
take_out-tally g zero (q ∷ ps) p rest e = ground arith
take_out-tally g (suc i) (q ∷ ps) p rest e = elim (Option-cases (take_out i ps)) [
  | inl n ↦ absurd (ground arith)
  | inr ((r, rs), s) ↦ ground (arith, take_out-tally g i ps r rs s)
]

pub take_out-Dated :
    (g i : ℕ) (ps : List Probe) (p : Probe) (rest : List Probe)
    → take_out i ps ≡ some (p, rest)
    → Dated g ps
    → (p.gen ≤ g) × ((p.bound || not p.probe) ≡ true) × Dated g rest
unfolding take_out
take_out-Dated g i [] p rest e d = cc
take_out-Dated g zero (q ∷ ps) p rest e d = ground arith
take_out-Dated g (suc i) (q ∷ ps) p rest e d = elim (Option-cases (take_out i ps)) [
  | inl n ↦ absurd (ground arith)
  | inr ((r, rs), s) ↦ ground (arith, take_out-Dated g i ps r rs s d.2)
]

-- What one call may do to the account: the episode's number grows by at most one.
pub record Advances (b c : Breaker) (ps : List Probe) : Type 0 where
  pub accounted : IsAccounted c ps
  pub gen_grows : b.gen ≤ c.gen
  pub gen_by_one : c.gen ≤ suc b.gen

module _ {b c : Breaker} {ps : List Probe} where
  Frame-IsAccounted : Frame b c → IsAccounted b ps → IsAccounted c ps
  Frame-IsAccounted f a = record {
    counted = λ e. ground (arith, a.counted (sym f.state_eq ∙ e), f.probes_eq, f.gen_eq);
    dated = subst_gen f.gen_eq a.dated;
  }
    where
      subst_gen : {g h : ℕ} → g ≡ h → Dated h ps → Dated g ps
      subst_gen e d = rw e d

-- A call that leaves the episode's number and keeps the account.
pub keeps : {b c : Breaker} (ps : List Probe) → c.gen ≡ b.gen → IsAccounted c ps → Advances b c ps
keeps ps e a = record { accounted = a; gen_grows = omega arith; gen_by_one = omega arith }

enter_half_open :
    (b : Breaker) (ps : List Probe)
    → suc b.gen < 2 ^ 64
    → Dated b.gen ps
    → (u64 (b.gen + 1) ≡ suc b.gen) × (0 ≡ tally (suc b.gen) ps) × Dated (suc b.gen) ps
enter_half_open b ps small d =
    (omega arith, sym (tally-new b.gen ps d), Dated-mono b.gen (suc b.gen) ps (omega arith) d)

pub set_state_locked-Advances :
    (b : Breaker) (ps : List Probe) (trs : List Transition) (to : State) (now : ℕ)
    → suc b.gen < 2 ^ 64
    → IsAccounted b ps
    → Advances b (set_state_locked b trs to now).0 ps
unfolding set_state_locked clear_locked
set_state_locked-Advances b ps trs state_closed now small a = ground (arith, a.dated)
set_state_locked-Advances b ps trs state_open now small a = ground (arith, a.dated)
set_state_locked-Advances b ps trs state_half_open now small a =
    ground (arith, enter_half_open b ps small a.dated)

refresh_locked-Advances :
    (b : Breaker) (ps : List Probe) (now : ℕ) (trs : List Transition)
    → suc b.gen < 2 ^ 64
    → IsAccounted b ps
    → Advances b (refresh_locked b now trs).0 ps
refresh_locked-Advances b ps now trs small a =
    let f = advance_locked-Frame b now in
    let d = Frame-IsAccounted f a in
    refresh_cases (λ r. Advances b r.0 ps) b now trs (λ _. keeps ps f.gen_eq d)
      λ _.
        let g =
          set_state_locked-Advances (advance_locked b now) ps trs state_half_open now
            (rw f.gen_eq small) d in
        record {
          accounted = g.accounted;
          gen_grows = omega (arith, f.gen_eq);
          gen_by_one = omega (arith, f.gen_eq);
        }

grant-IsAccounted :
    (s : State) (b : Breaker) (ps : List Probe)
    → b.state ≡ s
    → IsAccounted b ps
    → IsAccounted (grant s b).0 ((grant s b).1 ∷ ps) × ((grant s b).0.gen ≡ b.gen)
unfolding grant
grant-IsAccounted state_closed b ps e a = ground arith
grant-IsAccounted state_open b ps e a = ground arith
grant-IsAccounted state_half_open b ps e a = ground arith

-- The outcome of a held probe, after the window has been refreshed and the outcome counted.
judge-Advances :
    (s : State) (b : Breaker) (p : Probe) (ps : List Probe) (failed : Bool) (now : ℕ)
    (trs : List Transition)
    → b.state ≡ s
    → suc b.gen < 2 ^ 64
    → IsAccounted b (p ∷ ps)
    → Advances b (judge s b (is_current b p) failed now trs).0 ps
unfolding judge is_current
judge-Advances state_closed b p ps failed now trs e small a =
    let b' : IsAccounted b ps = ground arith in
    ground (arith, set_state_locked-Advances b ps trs state_open now small b')
judge-Advances state_open b p ps failed now trs e small a = ground arith
judge-Advances state_half_open b p ps failed now trs e small a =
    elim (Bool-cases (belongs b.gen p)) [
      | inl mine ↦
          let t = record b { probes = b.probes - 1 } in
          let s = record t { successes = b.successes + 1 } in
          let at : IsAccounted t ps = ground arith in
          let as' : IsAccounted s ps = ground arith in
          ground (
            arith,
            set_state_locked-Advances t ps trs state_open now small at,
            set_state_locked-Advances s ps trs state_closed now small as',
          )
      | inr other ↦ ground arith
    ]

record_outcome-Advances :
    (b : Breaker) (p : Probe) (ps : List Probe) (failed : Bool) (now : ℕ)
    → suc (suc b.gen) < 2 ^ 64
    → IsAccounted b (p ∷ ps)
    → IsAccounted (record_outcome b failed p now).0 ps
      × (b.gen ≤ (record_outcome b failed p now).0.gen)
      × ((record_outcome b failed p now).0.gen ≤ suc (suc b.gen))
unfolding record_outcome
record_outcome-Advances b p ps failed now small a =
    let r = (refresh_locked b now []).0 in
    let h = refresh_locked-Advances b (p ∷ ps) now [] (omega arith) a in
    let c = count_locked r failed in
    let f = count_locked-Frame r failed in
    let j =
      judge-Advances c.state c p ps failed now (refresh_locked b now []).1 refl
        (omega (arith, f.gen_eq, h.gen_by_one)) (Frame-IsAccounted f h.accounted) in
    (
      j.accounted,
      omega (arith, j.gen_grows, f.gen_eq, h.gen_grows),
      omega (arith, j.gen_by_one, f.gen_eq, h.gen_by_one),
    )

-- The account after a call, with the bound on the episode's number.
pub record After (b c : Breaker) (ps : List Probe) : Type 0 where
  pub accounted : IsAccounted c ps
  pub gen_bound : c.gen ≤ suc (suc b.gen)

module _ (b : Breaker) (ps : List Probe) (small : suc (suc b.gen) < 2 ^ 64) where
  refreshed : (now : ℕ) → IsAccounted b ps → After b (refresh_locked b now []).0 ps
  refreshed now a =
      let h = refresh_locked-Advances b ps now [] (omega arith) a in
      record { accounted = h.accounted; gen_bound = omega (arith, h.gen_by_one) }

  outcome-After :
      (p : Probe) (failed : Bool) (now : ℕ)
      → IsAccounted b (p ∷ ps)
      → After b (record_outcome b failed p now).0 ps
  outcome-After p failed now a =
      let h = record_outcome-Advances b p ps failed now small a in
      record { accounted = h.0; gen_bound = h.2 }

  pub admit-After : (now : ℕ) → IsAccounted b ps → After b (admit b now).0 ((admit b now).1 ∷ ps)
  unfolding admit
  admit-After now a =
      let r = (refresh_locked b now []).0 in
      let h = refreshed now a in
      let g = grant-IsAccounted r.state r ps refl h.accounted in ground (arith, g, h)

  pub resolve-After :
      (p : Probe) (failed : Bool) (now : ℕ)
      → IsAccounted b (p ∷ ps)
      → After b (resolve b failed p now) ps
  unfolding probe_success probe_failure
  resolve-After p failed now a =
      ground (arith, outcome-After p true now a, outcome-After p false now a)

  pub book-After : (failed : Bool) (now : ℕ) → IsAccounted b ps → After b (book b failed now) ps
  unfolding success failure
  book-After failed now a =
      let z : IsAccounted b (zero_probe ∷ ps) = ground arith in
      ground (arith, outcome-After zero_probe true now z, outcome-After zero_probe false now z)

  pub probe_release-After : (p : Probe) → IsAccounted b (p ∷ ps) → After b (probe_release b p) ps
  unfolding probe_release
  probe_release-After p a = ground arith

  pub reset-After : (now : ℕ) → IsAccounted b ps → After b (reset b now).0 ps
  unfolding reset set_state_locked clear_locked
  reset-After now a = ground (arith, a.dated)

  pub state-After : (now : ℕ) → IsAccounted b ps → After b (state b now).0 ps
  unfolding state
  state-After now a = ground (arith, refreshed now a)

  pub ready-After : (now : ℕ) → IsAccounted b ps → After b (ready b now).0 ps
  unfolding ready
  ready-After now a = ground (arith, refreshed now a)

  pub counts-After : (now : ℕ) → IsAccounted b ps → After b (counts b now).0 ps
  unfolding counts
  counts-After now a =
      let f = advance_locked-Frame b now in
      record { accounted = Frame-IsAccounted f a; gen_bound = omega (arith, f.gen_eq) }

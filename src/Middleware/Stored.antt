-- ===== src/Middleware/Stored.antt =====
-- internal/middleware/metrics.go: how many labels are stored.
use nw_lb_go.Base.{
  ℕ, zero, suc, ◌+◌, ◌≤◌, ◌<◌, ◌≡◌, ◌∙◌, refl, sym, subst, ltb, ltb→lt, ltb→le, ◌⊎◌, leb, if_elim,
  length-replicate, total, total-set, past_end, Bool-cases, inl, inr, List, [], ◌∷◌, Str, arith,
  length, set, get_or, replicate, length-set, ℤ, pos, negsuc,
}
use nw_lb_go.Middleware.Labels.{
  Labels, new_bounded_labels, has_label, At, idle, looks, checks, stores, counts, gave, advance,
  System, Move, moves, begins, begun, step, run, new_system,
}

-- Past the check of `n`, and about to store; or stored, and about to count.
abbrev is_storing : At → ℕ
is_storing (stores x) = 1
is_storing _ = 0

abbrev is_counting : At → ℕ
is_counting (counts x) = 1
is_counting _ = 0

total_both_le : (l : List At) → total is_storing l + total is_counting l ≤ length l
total_both_le [] = omega arith
total_both_le (idle ∷ l) = omega (arith, total_both_le l)
total_both_le (looks x ∷ l) = omega (arith, total_both_le l)
total_both_le (checks x ∷ l) = omega (arith, total_both_le l)
total_both_le (stores x ∷ l) = omega (arith, total_both_le l)
total_both_le (counts x ∷ l) = omega (arith, total_both_le l)
total_both_le (gave x ∷ l) = omega (arith, total_both_le l)

-- Every label stored is counted or about to be, and those that may still be stored are few.
pub record Counted (s : System) : Type 0 where
  pub stored : length s.labels.seen ≡ s.labels.n + total is_counting s.callers
  pub few :
      suc (length s.labels.seen + total is_storing s.callers) ≤ s.labels.max + length s.callers

-- What one operation does to the counts: it keeps them in step, and it adds to what may be stored only
-- where `n` is below the cap.
record Effect (a : At) (l : Labels) (r : Labels × At) : Type 0 where
  same_max : (r.0).max ≡ l.max
  in_step :
      length (r.0).seen + (l.n + is_counting a) ≡ length l.seen + ((r.0).n + is_counting (r.1))
  below_cap :
      (length (r.0).seen + is_storing (r.1) ≤ length l.seen + is_storing a)
      ⊎ ((l.n < l.max)
          × ((r.0).n ≡ l.n)
          × (length (r.0).seen + is_storing (r.1) ≤ suc (length l.seen + is_storing a)))

advance-Effect : (a : At) (l : Labels) → Effect a l (advance a l)
unfolding advance
advance-Effect idle l = record {
  same_max = refl;
  in_step = omega arith;
  below_cap = inl (omega arith);
}
advance-Effect (looks x) l =
    if_elim (λ b. Effect (looks x) l (l, b)) (has_label x l.seen)
      (λ h. record { same_max = refl; in_step = omega arith; below_cap = inl (omega arith) })
      (λ h. record { same_max = refl; in_step = omega arith; below_cap = inl (omega arith) })
advance-Effect (checks x) l =
    if_elim (λ b. Effect (checks x) l (l, b)) (leb l.max l.n)
      (λ h. record { same_max = refl; in_step = omega arith; below_cap = inl (omega arith) })
      (λ h. record {
        same_max = refl;
        in_step = omega arith;
        below_cap = inr (ground arith, refl, omega arith);
      })
advance-Effect (stores x) l =
    if_elim (λ r. Effect (stores x) l r) (has_label x l.seen)
      (λ h. record { same_max = refl; in_step = omega arith; below_cap = inl (omega arith) })
      (λ h. record { same_max = refl; in_step = omega arith; below_cap = inl (omega arith) })
advance-Effect (counts x) l = record {
  same_max = refl;
  in_step = omega arith;
  below_cap = inl (omega arith);
}
advance-Effect (gave x) l = record {
  same_max = refl;
  in_step = omega arith;
  below_cap = inl (omega arith);
}

-- The caller that moves is one of those in the list.
Effect-Counted :
    (s : System) (i : ℕ) (r : Labels × At)
    → i < length s.callers
    → Effect (get_or s.callers i idle) s.labels r
    → Counted s
    → Counted (record { labels = r.0; callers = set s.callers i (r.1) })
Effect-Counted s i r inside e h =
    let a = total-set is_storing s.callers i (r.1) idle inside in
    let b = total-set is_counting s.callers i (r.1) idle inside in
    let c = length-set s.callers i (r.1) in
    let d = total_both_le (set s.callers i (r.1)) in
    record {
      stored = omega (arith, a, b, e.in_step, h.stored);
      few = elim (e.below_cap) [
        | inl low ↦ omega (arith, a, c, low, e.same_max, h.few)
        | inr (under, still, low) ↦
            omega (arith, a, b, c, d, under, still, low, e.same_max, e.in_step, h.stored)
      ];
    }

begun-Effect : (name : Str) (a : At) (l : Labels) → Effect a l (l, begun name a)
unfolding begun
begun-Effect name idle l = record {
  same_max = refl;
  in_step = omega arith;
  below_cap = inl (omega arith);
}
begun-Effect name (gave x) l = record {
  same_max = refl;
  in_step = omega arith;
  below_cap = inl (omega arith);
}
begun-Effect name (looks x) l = record {
  same_max = refl;
  in_step = omega arith;
  below_cap = inl (omega arith);
}
begun-Effect name (checks x) l = record {
  same_max = refl;
  in_step = omega arith;
  below_cap = inl (omega arith);
}
begun-Effect name (stores x) l = record {
  same_max = refl;
  in_step = omega arith;
  below_cap = inl (omega arith);
}
begun-Effect name (counts x) l = record {
  same_max = refl;
  in_step = omega arith;
  below_cap = inl (omega arith);
}

step-Counted : (m : Move) (s : System) → Counted s → Counted (step m s)
unfolding step
step-Counted (moves i) s h = elim (Bool-cases (ltb i (length s.callers))) [
  | inl e ↦
      let r = advance (get_or s.callers i idle) s.labels in
      Effect-Counted s i r (ltb→lt i (length s.callers) e)
        (advance-Effect (get_or s.callers i idle) s.labels) h
  | inr e ↦
      let out = past_end s.callers i idle idle (ltb→le i (length s.callers) e) in
      subst
        (λ a. Counted (record {
          labels = (advance a s.labels).0;
          callers = set s.callers i (advance a s.labels).1;
        }))
        (sym out.0) (subst (λ l. Counted (record s { callers = l })) (sym out.1) h)
]
step-Counted (begins i name) s h = elim (Bool-cases (ltb i (length s.callers))) [
  | inl e ↦
      Effect-Counted s i (s.labels, begun name (get_or s.callers i idle))
        (ltb→lt i (length s.callers) e) (begun-Effect name (get_or s.callers i idle) s.labels) h
  | inr e ↦
      let out =
        past_end s.callers i (begun name (get_or s.callers i idle)) idle
          (ltb→le i (length s.callers) e) in
      subst (λ l. Counted (record s { callers = l })) (sym out.1) h
]

pub run-Counted : (ms : List Move) (s : System) → Counted s → Counted (run ms s)
unfolding run
run-Counted [] s h = h
run-Counted (m ∷ ms) s h = run-Counted ms (step m s) (step-Counted m s h)

total-replicate : (f : At → ℕ) (n : ℕ) → f idle ≡ 0 → total f (replicate n idle) ≡ 0
total-replicate f zero e = refl
total-replicate f (suc n) e = omega (arith, e, total-replicate f n e)

positive : (max : ℤ) → 1 ≤ (new_bounded_labels max).max
unfolding new_bounded_labels
positive (pos n) = ground arith
positive (negsuc n) = ground arith

pub new_system-Counted : (max : ℤ) (callers : ℕ) → Counted (new_system max callers)
unfolding new_system new_bounded_labels
new_system-Counted max callers =
    let a = total-replicate is_storing callers refl in
    let b = total-replicate is_counting callers refl in
    record {
      stored = omega (arith, b);
      few = let c = length-replicate callers idle in omega (arith, a, c, positive max);
    }

step-max :
    (m : Move) (s : System)
    → ((step m s).labels.max ≡ s.labels.max) × (length (step m s).callers ≡ length s.callers)
unfolding step
step-max (moves i) s =
    let a = get_or s.callers i idle in
    ((advance-Effect a s.labels).same_max, length-set s.callers i (advance a s.labels).1)
step-max (begins i name) s = (refl, length-set s.callers i (begun name (get_or s.callers i idle)))

pub run-max :
    (ms : List Move) (s : System)
    → ((run ms s).labels.max ≡ s.labels.max) × (length (run ms s).callers ≡ length s.callers)
unfolding run
run-max [] s = (refl, refl)
run-max (m ∷ ms) s = let a = run-max ms (step m s) in let b = step-max m s in (a.0 ∙ b.0, a.1 ∙ b.1)

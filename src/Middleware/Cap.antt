-- ===== src/Middleware/Cap.antt =====
-- internal/middleware/metrics.go: how many labels get through.
use nw_lb_go.Base.{
  ℕ, suc, ◌+◌, ◌≤◌, ◌≡◌, refl, ◌⊎◌, leb, true, if_elim, length-replicate, inl, inr, List, [], ◌∷◌,
  Str, str_eq_refl, arith, All, All-set, All-get_or, All-replicate, All-mono, length, get_or, ℤ,
}
use nw_lb_go.Middleware.Labels.{
  other_method, Labels, new_bounded_labels, has_label, At, idle, looks, checks, stores, counts,
  gave, advance, System, Move, moves, begins, begun, step, run, new_system,
}
use nw_lb_go.Middleware.Stored.{run-Counted, new_system-Counted, run-max}

-- A label that a caller was given, or is about to be given, is one that is stored, or "other".
abbrev pub Given : List Str → At → Type 0
Given seen (gave r) = (r ≡ other_method) ⊎ (has_label r seen ≡ true)
Given seen (counts x) = has_label x seen ≡ true
Given seen _ = Unit

has_label-more :
    (x y : Str) (seen : List Str) → has_label x seen ≡ true → has_label x (y ∷ seen) ≡ true
unfolding has_label
has_label-more x y seen h = ground arith

Given-more : (y : Str) (seen : List Str) (a : At) → Given seen a → Given (y ∷ seen) a
Given-more y seen idle h = tt
Given-more y seen (looks x) h = tt
Given-more y seen (checks x) h = tt
Given-more y seen (stores x) h = tt
Given-more y seen (counts x) h = has_label-more x y seen h
Given-more y seen (gave r) (inl e) = inl e
Given-more y seen (gave r) (inr e) = inr (has_label-more r y seen e)

-- What one operation leaves true for the caller that takes it and for the others.
Keeps : List Str → Labels × At → Type 0
Keeps seen r = Given ((r.0).seen) (r.1) × ((a : At) → Given seen a → Given ((r.0).seen) a)

advance-Keeps : (a : At) (l : Labels) → Given l.seen a → Keeps l.seen (advance a l)
unfolding advance Keeps
advance-Keeps idle l g = (tt, λ a h. h)
advance-Keeps (looks x) l g =
    if_elim (λ b. Keeps l.seen (l, b)) (has_label x l.seen) (λ e. (inr e, λ a h. h))
      (λ e. (tt, λ a h. h))
advance-Keeps (checks x) l g =
    if_elim (λ b. Keeps l.seen (l, b)) (leb l.max l.n) (λ e. (inl refl, λ a h. h))
      (λ e. (tt, λ a h. h))
advance-Keeps (stores x) l g =
    if_elim (Keeps l.seen) (has_label x l.seen) (λ e. (inr e, λ a h. h))
      (λ e. (here x l.seen, λ a h. Given-more x l.seen a h))
  where
    here : (x : Str) (seen : List Str) → has_label x (x ∷ seen) ≡ true
    here x seen = rw (has_label, str_eq_refl x) refl
advance-Keeps (counts x) l g = (inr g, λ a h. h)
advance-Keeps (gave x) l g = (g, λ a h. h)

abbrev AllGiven : System → Type 0
AllGiven s = All (Given s.labels.seen) s.callers

begun-Given : (name : Str) (seen : List Str) (a : At) → Given seen a → Given seen (begun name a)
unfolding begun
begun-Given name seen idle g = tt
begun-Given name seen (looks x) g = g
begun-Given name seen (checks x) g = g
begun-Given name seen (stores x) g = g
begun-Given name seen (counts x) g = g
begun-Given name seen (gave x) g = tt

step-AllGiven : (m : Move) (s : System) → AllGiven s → AllGiven (step m s)
unfolding step Keeps
step-AllGiven (moves i) s h =
    let seen = s.labels.seen in
    let a = get_or s.callers i idle in
    let r : Labels × At = advance a s.labels in
    let k = advance-Keeps a s.labels (All-get_or (Given seen) s.callers i idle tt h) in
    All-set (Given ((r.0).seen)) s.callers i (r.1)
      (All-mono (Given seen) (Given ((r.0).seen)) s.callers k.1 h) k.0
step-AllGiven (begins i name) s h =
    let seen = s.labels.seen in
    let a = get_or s.callers i idle in
    All-set (Given seen) s.callers i (begun name a) h
      (begun-Given name seen a (All-get_or (Given seen) s.callers i idle tt h))

run-AllGiven : (ms : List Move) (s : System) → AllGiven s → AllGiven (run ms s)
unfolding run
run-AllGiven [] s h = h
run-AllGiven (m ∷ ms) s h = run-AllGiven ms (step m s) (step-AllGiven m s h)

-- The cap on labels is exact but for the calls that run at the same time. Whatever they ask for and however
-- their operations interleave: every label that one is given is "other" or one of those stored, and at
-- most `max` + `callers` - 1 are stored, so with one caller at most `max`.
pub labels_bounded :
    (max : ℤ) (callers : ℕ) (ms : List Move)
    → let s = new_system max callers in
      let t = run ms s in
      All (Given t.labels.seen) t.callers × (suc (length t.labels.seen) ≤ s.labels.max + callers)
unfolding new_system new_bounded_labels
labels_bounded max callers ms =
    let s = new_system max callers in
    let h = run-Counted ms s (new_system-Counted max callers) in
    let same = run-max ms s in
    let size = length-replicate callers idle in
    (
      run-AllGiven ms s (All-replicate (Given []) callers idle tt),
      omega (arith, h.few, same.0, same.1, size),
    )

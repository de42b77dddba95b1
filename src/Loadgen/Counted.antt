-- ===== src/Loadgen/Counted.antt =====
-- cmd/loadgen/stats.go: the loop of `buildReport` against plain counts over the samples.
use nw_lb_go.Base.{
  append_nil, ◌≡◌, ◌∙◌, refl, ap, sym, subst, Bool, true, false, not, if_elim, Bool-cases, inl, inr,
  List, [], ◌∷◌, ◌++◌, Option, none, some, ℤ, ◌==◌, length, Str, str_eq, str_eq→eq, str_eq_refl,
  arith,
}
use nw_lb_go.Base.Sort.{keep}
use nw_lb_go.Loadgen.Stats.{
  Sample, count_of, add_to, first_backend, Tally, count_outcome, count_backend, count_key,
  count_sample, count_samples, see_backend,
}
use nw_lb_go.Loadgen.Report.{no_tally}
use nw_lb_go.Loadgen.Outcomes.{
  Outcomes, count_of-increment, length-keep-one, count_outcome-Outcomes,
}

-- `Outcomes` sees nothing of the other fields.
Outcomes-frame :
    (slo : ℤ) (done : List Sample) (t u : Tally)
    → Outcomes slo done t
    → record u { backend_distribution = []; keys = []; key_backend = []; multi_backend = [] }
      ≡ record t { backend_distribution = []; keys = []; key_backend = []; multi_backend = [] }
    → Outcomes slo done u
Outcomes-frame slo done t u h e = record {
  oks = ap (λ x. x.ok) e ∙ h.oks;
  failed = ap (λ x. x.errors) e ∙ h.failed;
  late = ap (λ x. x.slo_violations) e ∙ h.late;
  services = ap (λ x. x.service) e ∙ h.services;
  responses = ap (λ x. x.response) e ∙ h.responses;
  fails = ap (λ x. x.err_latency) e ∙ h.fails;
  by_code = λ c. ap (λ x. count_of (◌==◌) c x.errors_by_code) e ∙ h.by_code c;
}

abbrev without_keys : Tally → Tally
without_keys t = record t { keys = []; key_backend = []; multi_backend = [] }

abbrev no_backend : Tally → Tally
no_backend t = record t { backend_distribution = [] }

see_backend-without_keys :
    (k b : Str) (o : Option Str) (t : Tally) → without_keys (see_backend k b o t) ≡ without_keys t
unfolding see_backend
see_backend-without_keys k b none t = refl
see_backend-without_keys k b (some prev) t =
    if_elim (λ u. without_keys u ≡ without_keys t) (not (str_eq prev b)) (λ e. refl) (λ e. refl)

count_key-without_keys : (s : Sample) (t : Tally) → without_keys (count_key s t) ≡ without_keys t
unfolding count_key
count_key-without_keys s t =
    let P : Tally → Type 0 = λ u. without_keys u ≡ without_keys t in
    let seen : Tally = record t { keys = add_to s.session_key t.keys } in
    if_elim P (str_eq s.session_key []) (λ e. refl)
      (λ e.
        if_elim P (str_eq s.backend_id []) (λ f. refl)
          (λ f.
            see_backend-without_keys s.session_key s.backend_id
              (first_backend s.session_key t.key_backend) seen))

abbrev of_backend : Str → Sample → Bool
of_backend b s = str_eq s.backend_id b

-- How often each backend served.
abbrev pub Distribution : List Sample → Tally → Type 0
Distribution done t =
    (b : Str)
    → str_eq b [] ≡ false
    → count_of str_eq b t.backend_distribution ≡ length (keep (of_backend b) done)

count_backend-Distribution :
    (done : List Sample) (s : Sample) (t : Tally)
    → Distribution done t
    → Distribution (done ++ s ∷ []) (count_backend s t)
unfolding count_backend
count_backend-Distribution done s t h b some_id =
    let kept = length-keep-one (of_backend b) done s in
    let i = count_of-increment str_eq str_eq→eq str_eq_refl b s.backend_id t.backend_distribution in
    let base = h b some_id in
    let P : Tally → Type 0 = λ u.
      count_of str_eq b u.backend_distribution ≡ length (keep (of_backend b) (done ++ s ∷ [])) in
    if_elim P (not (str_eq s.backend_id [])) (λ e. ground (arith, kept, i, base))
      (λ e.
        let differs = no_id s.backend_id b (ground arith) some_id in
        ground (arith, kept, base, differs))
  where
    no_id : (x b : Str) → str_eq x [] ≡ true → str_eq b [] ≡ false → str_eq x b ≡ false
    no_id x b e f = elim (Bool-cases (str_eq x b)) [
      | inr n ↦ n
      | inl y ↦
          let same : b ≡ [] = sym (str_eq→eq x b y) ∙ str_eq→eq x [] e in
          let t : str_eq b [] ≡ true = rw same (str_eq_refl []) in cc
    ]

pub count_outcome-rest :
    (slo : ℤ) (s : Sample) (t : Tally)
    → let u = count_outcome slo s t in
      (u.backend_distribution ≡ t.backend_distribution)
      × (u.key_backend ≡ t.key_backend)
      × (u.multi_backend ≡ t.multi_backend)
unfolding count_outcome
count_outcome-rest slo s t =
    let P : Tally → Type 0 = λ u.
      (u.backend_distribution ≡ t.backend_distribution)
      × (u.key_backend ≡ t.key_backend)
      × (u.multi_backend ≡ t.multi_backend) in
    if_elim P (s.code == 0) (λ e. (refl, refl, refl)) (λ e. (refl, refl, refl))

pub count_backend-rest :
    (s : Sample) (t : Tally)
    → record (count_backend s t) { backend_distribution = [] }
      ≡ record t { backend_distribution = [] }
unfolding count_backend
count_backend-rest s t =
    let P : Tally → Type 0 =
      λ u. record u { backend_distribution = [] } ≡ record t { backend_distribution = [] } in
    if_elim P (not (str_eq s.backend_id [])) (λ e. refl) (λ e. refl)

pub append_step {ℓ} :
    {A : Type ℓ} (xs : List A) (y : A) (ys : List A) → xs ++ y ∷ ys ≡ (xs ++ y ∷ []) ++ ys
append_step [] y ys = refl
append_step (x ∷ xs) y ys = ap (◌∷◌ x) (append_step xs y ys)

-- Everything but the keys.
pub record Counted (slo : ℤ) (done : List Sample) (t : Tally) : Type 0 where
  pub outcomes : Outcomes slo done t
  pub served : Distribution done t

count_sample-Counted :
    (slo : ℤ) (done : List Sample) (s : Sample) (t : Tally)
    → Counted slo done t
    → Counted slo (done ++ s ∷ []) (count_sample slo s t)
unfolding count_sample
count_sample-Counted slo done s t h =
    let u = count_outcome slo s t in
    let v = count_backend s u in
    let b = count_backend-rest s u in
    let c = count_key-without_keys s v in
    record {
      outcomes =
          Outcomes-frame slo (done ++ s ∷ []) u (count_key s v)
            (count_outcome-Outcomes slo done s t h.outcomes) (ap no_backend c ∙ ap without_keys b);
      served = λ k some_id.
          ap (λ x. count_of str_eq k x.backend_distribution) c
          ∙ count_backend-Distribution done s u
              (λ k i. ap (count_of str_eq k) (count_outcome-rest slo s t).0 ∙ h.served k i) k
              some_id;
    }

count_samples-Counted :
    (slo : ℤ) (done ss : List Sample) (t : Tally)
    → Counted slo done t
    → Counted slo (done ++ ss) (count_samples slo ss t)
unfolding count_samples
count_samples-Counted slo done [] t h = subst (λ l. Counted slo l t) (sym (append_nil done)) h
count_samples-Counted slo done (s ∷ ss) t h =
    subst (λ l. Counted slo l (count_samples slo ss (count_sample slo s t)))
      (sym (append_step done s ss))
      (count_samples-Counted slo (done ++ s ∷ []) ss (count_sample slo s t)
        (count_sample-Counted slo done s t h))

-- What the loop of `buildReport` counts is what is there to count: the requests that succeeded, those that
-- failed, by code, and those that broke the SLO; the two timers of the first kind and the latency of the
-- second, in order; and for each backend the requests that it answered.
pub count_samples_lem :
    (slo : ℤ) (ss : List Sample) → Counted slo ss (count_samples slo ss no_tally)
count_samples_lem slo ss = count_samples-Counted slo [] ss no_tally (
    unfold keep count_of in
    (record {
      outcomes = record {
        oks = refl;
        failed = refl;
        late = refl;
        services = refl;
        responses = refl;
        fails = refl;
        by_code = λ c. refl;
      };
      served = λ b i. refl;
    }))

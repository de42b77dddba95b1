-- ===== src/Loadgen/Outcomes.antt =====
-- cmd/loadgen/stats.go: the requests that succeeded and those that failed, counted.
use nw_lb_go.Base.{
  append_nil, ℕ, suc, ◌+◌, ◌≡◌, ◌∙◌, refl, ap, sym, Bool, true, false, not, ◌&&◌, if◌then◌else◌,
  if_elim, Bool-cases, inl, inr, List, [], ◌∷◌, ◌++◌, map, ℤ, ltb_ℤ, ◌==◌, length, snoc,
  length-append, arith,
}
use nw_lb_go.Base.Sort.{keep, keep-append}
use nw_lb_go.Loadgen.Stats.{
  Sample, response_time, service_time, count_of, increment, Tally, count_outcome,
}

abbrev pub is_ok : Sample → Bool
is_ok s = s.code == 0

abbrev pub is_error : Sample → Bool
is_error s = not (s.code == 0)

abbrev pub is_late : ℤ → Sample → Bool
is_late slo s = s.code == 0 && ltb_ℤ slo (response_time s)

-- What the loop ought to have after some samples.
pub record Outcomes (slo : ℤ) (done : List Sample) (t : Tally) : Type 0 where
  pub oks : t.ok ≡ length (keep is_ok done)
  pub failed : t.errors ≡ length (keep is_error done)
  pub late : t.slo_violations ≡ length (keep (is_late slo) done)
  pub services : t.service ≡ map service_time (keep is_ok done)
  pub responses : t.response ≡ map response_time (keep is_ok done)
  pub fails : t.err_latency ≡ map response_time (keep is_error done)
  pub by_code :
      (c : ℕ)
      → count_of (◌==◌) c t.errors_by_code ≡ length (keep (λ s. is_error s && s.code == c) done)

module _ {K : Type 0} (eq : K → K → Bool) (sound : (x y : K) → eq x y ≡ true → x ≡ y)
    (same : (x : K) → eq x x ≡ true) where
  pub count_of-increment :
      (k j : K) (m : List (K × ℕ))
      → count_of eq k (increment eq j m)
        ≡ (if eq j k then suc (count_of eq k m) else count_of eq k m)
  unfolding count_of increment
  count_of-increment k j [] = ground arith
  count_of-increment k j ((i, n) ∷ m) = elim (Bool-cases (eq i j)) [
    | inl e ↦ let r : eq i k ≡ eq j k = ap (λ x. eq x k) (sound i j e) in rw (e, r) (ground arith)
    | inr e ↦ elim (Bool-cases (eq i k)) [
      | inr f ↦ rw (e, f) (count_of-increment k j m)
      | inl f ↦ let differs : eq j k ≡ false = apart i f e in rw (e, f, differs) refl
    ]
  ]
    where
      apart : (i : K) → eq i k ≡ true → eq i j ≡ false → eq j k ≡ false
      apart i a b = elim (Bool-cases (eq j k)) [
        | inr c ↦ c
        | inl c ↦
            let e : i ≡ j = sound i k a ∙ sym (sound j k c) in
            let t : eq i j ≡ true = rw (← e) (same i) in cc
      ]

module _ {ℓ} {A : Type ℓ} (p : A → Bool) (xs : List A) (x : A) where
  keep-one : keep p (xs ++ x ∷ []) ≡ keep p xs ++ (if p x then x ∷ [] else [])
  keep-one = keep-append p xs (x ∷ []) ∙ unfold keep in refl

  pub length-keep-one : length (keep p (xs ++ x ∷ [])) ≡ length (keep p xs) + (if p x then 1 else 0)
  length-keep-one =
      ap length keep-one
      ∙ (length-append (keep p xs) (if p x then x ∷ [] else [])
          ∙ ap (length (keep p xs) +◌) (one (p x)))
    where
      one : (b : Bool) → length (if b then x ∷ [] else []) ≡ (if b then 1 else 0)
      one true = refl
      one false = refl

module _ (f : Sample → ℤ) where
  map-one : (xs : List Sample) (x : Sample) → map f (xs ++ x ∷ []) ≡ snoc (map f xs) (f x)
  map-one [] x = refl
  map-one (y ∷ xs) x = ap (◌∷◌ (f y)) (map-one xs x)

  map-kept :
      (p : Sample → Bool) (xs : List Sample) (x : Sample)
      → p x ≡ true
      → snoc (map f (keep p xs)) (f x) ≡ map f (keep p (xs ++ x ∷ []))
  map-kept p xs x e = sym (
      ap (map f) (keep-one p xs x ∙ ap (λ b. keep p xs ++ (if b then x ∷ [] else [])) e)
      ∙ map-one (keep p xs) x)

  map-left_out :
      (p : Sample → Bool) (xs : List Sample) (x : Sample)
      → p x ≡ false
      → map f (keep p xs) ≡ map f (keep p (xs ++ x ∷ []))
  map-left_out p xs x e = sym (
      ap (map f) (
        keep-one p xs x
        ∙ (ap (λ b. keep p xs ++ (if b then x ∷ [] else [])) e ∙ append_nil (keep p xs))))

==_sound : (x y : ℕ) → (x == y) ≡ true → x ≡ y
==_sound x y h = ground arith

==_same : (x : ℕ) → (x == x) ≡ true
==_same x = ground arith

pub count_outcome-Outcomes :
    (slo : ℤ) (done : List Sample) (s : Sample) (t : Tally)
    → Outcomes slo done t
    → Outcomes slo (done ++ s ∷ []) (count_outcome slo s t)
unfolding count_outcome
count_outcome-Outcomes slo done s t h =
    let kept = λ (p : Sample → Bool). length-keep-one p done s in
    if_elim (Outcomes slo (done ++ s ∷ [])) (s.code == 0)
      (λ e. record {
        oks = ground (arith, kept is_ok, h.oks);
        failed = ground (arith, kept is_error, h.failed);
        late = ground (arith, kept (is_late slo), h.late);
        services =
            ap (λ l. snoc l (service_time s)) h.services ∙ map-kept service_time is_ok done s e;
        responses =
            ap (λ l. snoc l (response_time s)) h.responses ∙ map-kept response_time is_ok done s e;
        fails = h.fails ∙ map-left_out response_time is_error done s (ap not e);
        by_code = λ c.
            (let k = kept (λ s. is_error s && s.code == c) in
              let o = h.by_code c in ground (arith, k, o));
      })
      (λ e. record {
        oks = ground (arith, kept is_ok, h.oks);
        failed = ground (arith, kept is_error, h.failed);
        late = ground (arith, kept (is_late slo), h.late);
        services = h.services ∙ map-left_out service_time is_ok done s e;
        responses = h.responses ∙ map-left_out response_time is_ok done s e;
        fails =
            ap (λ l. snoc l (response_time s)) h.fails
            ∙ map-kept response_time is_error done s (ap not e);
        by_code = λ c.
            (let k = kept (λ s. is_error s && s.code == c) in
              let o = h.by_code c in
              let i = count_of-increment (◌==◌) ==_sound ==_same c s.code t.errors_by_code in
              ground (arith, k, o, i));
      })

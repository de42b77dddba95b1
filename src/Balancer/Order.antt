-- ===== src/Balancer/Order.antt =====
-- internal/balancer/balancer.go: the two steps of rung one of `Pick` against one walk along the whole
-- preference order, while the answers about a backend stay the same.
use nw_lb_go.Base.{
  ℕ, ◌≤◌, ◌<◌, ◌≡◌, refl, sym, ◌∙◌, ap, subst, ◌⊎◌, inl, inr, ltb, Bool, true, false, ◌&&◌, List,
  [], ◌∷◌, ◌++◌, none, some, Option-cases, Bool-cases, ◌==◌, Str, length, snoc, length-snoc,
  if◌then◌else◌, arith,
}
use nw_lb_go.Balancer.Types.{Ref, Gate, Snapshot, filter_available, find_ref, contains_ref, admits}
use nw_lb_go.Balancer.Pick.{collect_ring, keyed_ladder, ladder, finish_keyed, pick_keyed}

-- The gate while no backend changes its health or the verdict of its breaker.
abbrev pub steady : (Ref → Bool) → (Ref → Bool) → Gate
steady available healthy = record {
  S = Unit {0};
  available = λ st b. (st, available b);
  healthy = λ st b. (st, healthy b);
}

contains_ref-snoc_old :
    (out : List Ref) (x b : Ref) → contains_ref out b ≡ true → contains_ref (snoc out x) b ≡ true
unfolding contains_ref
contains_ref-snoc_old [] x b h = cc
contains_ref-snoc_old (y ∷ out) x b h = ground (arith, contains_ref-snoc_old out x b)

contains_ref-snoc_new : (out : List Ref) (x : Ref) → contains_ref (snoc out x) x ≡ true
unfolding contains_ref
contains_ref-snoc_new [] x = ground arith
contains_ref-snoc_new (y ∷ out) x = ground (arith, contains_ref-snoc_new out x)

module _ (av hl : Ref → Bool) (s : Snapshot) (max : ℕ) where
  -- `collectRing` with `filterAvailable`.
  abbrev walk : List Ref → List Str → List Ref
  walk out ids = (collect_ring (steady av hl) tt out s ids max filter_available).1

  -- Up to here, each id leads nowhere, or to a backend in `out` or one that is not available.
  abbrev Passed : List Ref → Str → Type 0
  Passed out id =
      (find_ref id s.by_id ≡ none)
      ⊎ ((b : Ref) × (find_ref id s.by_id ≡ some b)
          × ((contains_ref out b ≡ true) ⊎ (av b ≡ false)))

  abbrev AllPassed : List Ref → List Str → Type 0
  AllPassed out [] = Unit {0}
  AllPassed out (id ∷ ids) = Passed out id × AllPassed out ids

  -- The backend that an id leads to, if the walk takes it.
  abbrev Taken : List Ref → Str → Ref → Type 0
  Taken out id b = (find_ref id s.by_id ≡ some b) × (contains_ref out b ≡ false) × (av b ≡ true)

  visit : (out : List Ref) (id : Str) → Passed out id ⊎ ((b : Ref) × Taken out id b)
  visit out id = elim (Option-cases (find_ref id s.by_id)) [
    | inl absent ↦ inl (inl absent)
    | inr (b, e) ↦ elim (Bool-cases (contains_ref out b)) [
      | inl old ↦ inl (inr (b, e, inl old))
      | inr new ↦ elim (Bool-cases (av b)) [
        | inl passed ↦ inr (b, (e, new, passed))
        | inr no_way ↦ inl (inr (b, e, inr no_way))
      ]
    ]
  ]

  walk_passes :
      (out : List Ref) (id : Str) (ids : List Str)
      → Passed out id
      → walk out (id ∷ ids) ≡ walk out ids
  unfolding collect_ring admits
  walk_passes out id ids (inl absent) = rw (walk, absent) refl
  walk_passes out id ids (inr (b, e, inl old)) = rw (walk, e, collect_ring, old) refl
  walk_passes out id ids (inr (b, e, inr no_way)) = elim (Bool-cases (contains_ref out b)) [
    | inl old ↦ rw (walk, e, collect_ring, old) refl
    | inr new ↦ rw (walk, e, collect_ring, new, no_way) refl
  ]

  walk_takes :
      (out : List Ref) (id : Str) (ids : List Str) (b : Ref)
      → Taken out id b
      → walk out (id ∷ ids)
        ≡ (if length (snoc out b) == max then snoc out b else walk (snoc out b) ids)
  unfolding collect_ring admits
  walk_takes out id ids b (e, new, passed) = elim (Bool-cases (length (snoc out b) == max)) [
    | inl full ↦ rw (walk, e, collect_ring, new, passed, full) refl
    | inr room ↦ rw (walk, e, collect_ring, new, passed, room) refl
  ]

  -- Walking on after a first part.
  walk-append :
      (out : List Ref) (xs ys : List Str)
      → length out < max
      → walk out (xs ++ ys)
        ≡ (if length (walk out xs) == max then walk out xs else walk (walk out xs) ys)
  unfolding collect_ring
  walk-append out [] ys small = ground arith
  walk-append out (id ∷ xs) ys small = elim (visit out id) [
    | inl p ↦
        rw (walk_passes out id (xs ++ ys) p, walk_passes out id xs p) (walk-append out xs ys small)
    | inr (b, t) ↦
        rw (walk_takes out id (xs ++ ys) b t, walk_takes out id xs b t)
          (elim (Bool-cases (length (snoc out b) == max)) [
            | inl full ↦ rw (full, full) refl
            | inr room ↦
                rw room (walk-append (snoc out b) xs ys (ground (arith, length-snoc out b)))
          ])
  ]

  -- What was passed once is passed again.
  walk_again :
      (out : List Ref) (xs ys : List Str) → AllPassed out xs → walk out (xs ++ ys) ≡ walk out ys
  walk_again out [] ys h = refl
  walk_again out (id ∷ xs) ys (p, h) = walk_passes out id (xs ++ ys) p ∙ walk_again out xs ys h

  walk-grows :
      (out : List Ref) (ids : List Str) (b : Ref)
      → contains_ref out b ≡ true
      → contains_ref (walk out ids) b ≡ true
  unfolding collect_ring
  walk-grows out [] b h = h
  walk-grows out (id ∷ ids) b h = elim (visit out id) [
    | inl p ↦ rw (walk_passes out id ids p) (walk-grows out ids b h)
    | inr (x, t) ↦
        let longer = contains_ref-snoc_old out x b h in
        rw (walk_takes out id ids x t) (elim (Bool-cases (length (snoc out x) == max)) [
          | inl full ↦ rw full longer
          | inr room ↦ rw room (walk-grows (snoc out x) ids b longer)
        ])
  ]

  Passed-walk :
      (out : List Ref) (id : Str) (ids : List Str) → Passed out id → Passed (walk out ids) id
  Passed-walk out id ids (inl absent) = inl absent
  Passed-walk out id ids (inr (b, e, inl old)) = inr (b, e, inl (walk-grows out ids b old))
  Passed-walk out id ids (inr (b, e, inr no_way)) = inr (b, e, inr no_way)

  -- A walk that did not fill the list has passed every id.
  walk-AllPassed :
      (out : List Ref) (ids : List Str)
      → length out < max
      → length (walk out ids) < max
      → AllPassed (walk out ids) ids
  unfolding collect_ring
  walk-AllPassed out [] small h = tt
  walk-AllPassed out (id ∷ ids) small h = elim (visit out id) [
    | inl p ↦
        let e = walk_passes out id ids p in
        subst (λ w. AllPassed w (id ∷ ids)) (sym e)
          (Passed-walk out id ids p, walk-AllPassed out ids small (rw e at h))
    | inr (b, t) ↦ elim (Bool-cases (length (snoc out b) == max)) [
      | inl full ↦
          let e : walk out (id ∷ ids) ≡ snoc out b = rw (walk_takes out id ids b t, full) refl in
          let h' : length (snoc out b) < max = rw e at h in absurd (ground arith)
      | inr room ↦
          let e : walk out (id ∷ ids) ≡ walk (snoc out b) ids =
            rw (walk_takes out id ids b t, room) refl in
          subst (λ w. AllPassed w (id ∷ ids)) (sym e)
            (
              inr (b, t.0, inl (walk-grows (snoc out b) ids b (contains_ref-snoc_new out b))),
              walk-AllPassed (snoc out b) ids (ground (arith, length-snoc out b)) (rw e at h),
            )
    ]
  ]

  walk-bounded : (out : List Ref) (ids : List Str) → length out < max → length (walk out ids) ≤ max
  unfolding collect_ring
  walk-bounded out [] small = omega arith
  walk-bounded out (id ∷ ids) small = elim (visit out id) [
    | inl p ↦ rw (walk_passes out id ids p) (walk-bounded out ids small)
    | inr (b, t) ↦ rw (walk_takes out id ids b t) (elim (Bool-cases (length (snoc out b) == max)) [
      | inl full ↦ rw full (ground arith)
      | inr room ↦ rw room (walk-bounded (snoc out b) ids (ground (arith, length-snoc out b)))
    ])
  ]

  -- The two steps find what one walk along the whole order finds.
  two_steps :
      (few rest : List Str)
      → 0 < max
      → let first = walk [] few in
        walk [] (few ++ rest) ≡ (if ltb (length first) max then walk first (few ++ rest) else first)
  two_steps few rest pos_max =
      let first = walk [] few in
      let both = walk-append [] few rest pos_max in
      elim (Bool-cases (ltb (length first) max)) [
        | inl short ↦
            let open_end : (length first == max) ≡ false = ground arith in
            let again = walk_again first few rest (walk-AllPassed [] few pos_max (ground arith)) in
            rw (short, both, open_end) (sym again)
        | inr long ↦
            let full : (length first == max) ≡ true = ground (arith, walk-bounded [] few pos_max) in
            rw (long, both, full) refl
      ]

  finish_with : List Str → List Ref → Unit {0} × List Ref
  finish_with ids found = finish_keyed (steady av hl) s max ids (tt, found)

  finish_with-found :
      (ids : List Str) (found : List Ref) → 0 < length found → finish_with ids found ≡ (tt, found)
  unfolding finish_with finish_keyed
  finish_with-found ids found h =
      let e : ltb 0 (length found) ≡ true = ground arith in rw (finish_keyed, e) refl

  finish_with-ladder :
      (ids : List Str)
      → finish_with ids (walk [] ids) ≡ keyed_ladder (steady av hl) tt s ids max ladder []
  unfolding finish_with finish_keyed keyed_ladder
  finish_with-ladder ids = refl

  pick_keyed-finish :
      (few full : List Str)
      → let first = walk [] few in
        pick_keyed (steady av hl) tt s few full max ≡ (
          if ltb (length first) max && ltb (length few) (length s.backends)
          then finish_with full (walk first full)
          else finish_with few first)
  unfolding pick_keyed finish_with
  pick_keyed-finish few full = refl

  pub pick_keyed-ladder :
      (few full : List Str)
      → 0 < max
      → (rest : List Str) → full ≡ few ++ rest
      → (few ≡ full) ⊎ ((length few ≤ max) × (max < length s.backends))
      → pick_keyed (steady av hl) tt s few full max
        ≡ keyed_ladder (steady av hl) tt s full max ladder []
  pick_keyed-ladder few full pos_max rest e h =
      let first = walk [] few in
      let steps : walk [] full ≡ (if ltb (length first) max then walk first full else first) =
        rw e (two_steps few rest pos_max) in
      let done = finish_with-ladder full in
      pick_keyed-finish few full ∙ elim (Bool-cases (ltb (length first) max)) [
        | inr long ↦
            let same : walk [] full ≡ first = steps ∙ rw long refl in
            let found : 0 < length first = ground arith in
            rw long (
              finish_with-found few first found
              ∙ sym (finish_with-found full first found)
              ∙ ap (finish_with full) (sym same)
              ∙ done)
        | inl short ↦
            let same : walk [] full ≡ walk first full = steps ∙ rw short refl in
            elim (Bool-cases (ltb (length few) (length s.backends))) [
              | inl some_left ↦ rw (short, some_left) (ap (finish_with full) (sym same) ∙ done)
              | inr all_seen ↦ elim h [
                | inl whole ↦
                    rw (short, all_seen) (ap (λ ids. finish_with ids (walk [] ids)) whole ∙ done)
                | inr (a, c) ↦ absurd (ground arith)
              ]
            ]
      ]

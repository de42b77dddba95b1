-- ===== src/Balancer/Collect.antt =====
-- internal/balancer/balancer.go: what `collectRing` and `collectRotation` can return, whatever the
-- filter answers.
use nw_lb_go.Base.{
  ℕ, zero, suc, ◌+◌, ◌-◌, ◌%◌, ◌≤◌, ◌<◌, ◌≡◌, ◌≢◌, refl, ◌∙◌, ap, ◌⊎◌, inl, inr, true, false, List,
  [], ◌∷◌, some, Option-cases, Bool-cases, ◌==◌, Str, str_eq, length, get_or, snoc, length-snoc,
  All, All-snoc, arith,
}
use native.Mathlib.Nat.{mod-eq_of_lt, mod-lt, mod-eq-sub-mod}
use native.Mathlib.Decide.{dec_lt}
use nw_lb_go.Balancer.Types.{
  Ref, same_ref, Gate, Snapshot, PickFilter, find_ref, contains_ref, admits,
}
use nw_lb_go.Balancer.Pick.{collect_ring, rotation_loop, collect_rotation, no_ref}

-- No pointer stands twice.
abbrev pub UniqueRefs : List Ref → Type 0
UniqueRefs [] = Unit {0}
UniqueRefs (x ∷ xs) = (contains_ref xs x ≡ false) × UniqueRefs xs

-- Candidates: no two alike, no more than `max`, and all among `bs`.
pub record IsCandidates (bs : List Ref) (max : ℕ) (out : List Ref) : Type 0 where
  pub unique : UniqueRefs out
  pub bounded : length out ≤ max
  pub known : All (λ b. contains_ref bs b ≡ true) out

contains_ref-snoc :
    (xs : List Ref) (x b : Ref)
    → contains_ref xs b ≡ false
    → same_ref x b ≡ false
    → contains_ref (snoc xs x) b ≡ false
unfolding contains_ref
contains_ref-snoc [] x b h n = rw n
contains_ref-snoc (y ∷ xs) x b h n = ground (arith, contains_ref-snoc xs x b)

same_ref_symm : (x y : Ref) → same_ref x y ≡ false → same_ref y x ≡ false
same_ref_symm x y h = ground arith

pub snoc-UniqueRefs :
    (xs : List Ref) (x : Ref) → UniqueRefs xs → contains_ref xs x ≡ false → UniqueRefs (snoc xs x)
unfolding contains_ref
snoc-UniqueRefs [] x u n = (refl, tt)
snoc-UniqueRefs (y ∷ xs) x u n =
    let apart : same_ref y x ≡ false = ground arith in
    (
      contains_ref-snoc xs x y u.0 (same_ref_symm y x apart),
      snoc-UniqueRefs xs x u.1 (ground arith),
    )

snoc-IsCandidates :
    (bs : List Ref) (max : ℕ) (out : List Ref) (b : Ref)
    → IsCandidates bs max out
    → length out < max
    → contains_ref out b ≡ false
    → contains_ref bs b ≡ true
    → IsCandidates bs max (snoc out b)
snoc-IsCandidates bs max out b c small new known = record {
  unique = snoc-UniqueRefs out b c.unique new;
  bounded = omega (arith, length-snoc out b);
  known = All-snoc (λ x. contains_ref bs x ≡ true) out b c.known known;
}

-- Everything that the index of ids leads to is a backend of the snapshot.
abbrev pub IsIndexed : Snapshot → Type 0
IsIndexed s = All (λ e. contains_ref s.backends e.1 ≡ true) s.by_id

find_ref-known :
    (bs : List Ref) (m : List (Str × Ref)) (id : Str) (b : Ref)
    → All (λ e. contains_ref bs e.1 ≡ true) m
    → find_ref id m ≡ some b
    → contains_ref bs b ≡ true
unfolding find_ref
find_ref-known bs [] id b a e = cc
find_ref-known bs ((k, x) ∷ m) id b a e = elim (Bool-cases (str_eq k id)) [
  | inl same ↦ found (rw same at e)
  | inr other ↦ find_ref-known bs m id b a.1 (rw other at e)
]
  where
    found : some x ≡ some b → contains_ref bs b ≡ true
    found h = ground (arith, a.0)

module _ (g : Gate) (s : Snapshot) (max : ℕ) (f : PickFilter) (indexed : IsIndexed s) where
  pub collect_ring-IsCandidates :
      (st : g.S) (out : List Ref) (ids : List Str)
      → IsCandidates s.backends max out
      → length out < max
      → IsCandidates s.backends max (collect_ring g st out s ids max f).1
  unfolding collect_ring
  collect_ring-IsCandidates st out [] c small = c
  collect_ring-IsCandidates st out (id ∷ ids) c small = elim (Option-cases (find_ref id s.by_id)) [
    | inl absent ↦ rw (absent, collect_ring) (collect_ring-IsCandidates st out ids c small)
    | inr (b, e) ↦ elim (Bool-cases (contains_ref out b)) [
      | inl old ↦ rw (e, collect_ring, old) (collect_ring-IsCandidates st out ids c small)
      | inr new ↦
          let longer =
            snoc-IsCandidates s.backends max out b c small new
              (find_ref-known s.backends s.by_id id b indexed e) in
          let a = admits g f st b in
          elim (Bool-cases (a.1)) [
            | inr no_way ↦
                rw (e, collect_ring, new, no_way) (collect_ring-IsCandidates a.0 out ids c small)
            | inl passed ↦ elim (Bool-cases (length (snoc out b) == max)) [
              | inl full ↦ rw (e, collect_ring, new, passed, full) longer
              | inr room ↦
                  rw (e, collect_ring, new, passed, room)
                    (collect_ring-IsCandidates a.0 (snoc out b) ids longer
                      (ground (arith, longer.bounded)))
            ]
          ]
    ]
  ]

module _ (bs : List Ref) where
  contains_ref-at :
      (l : List Ref) (p : ℕ) → p < length l → contains_ref l (get_or l p no_ref) ≡ true
  unfolding contains_ref
  contains_ref-at [] p h = elim h [ ]
  contains_ref-at (x ∷ l) zero h = ground arith
  contains_ref-at (x ∷ l) (suc p) h = ground (arith, contains_ref-at l p)

  distinct_from :
      (x : Ref) (m : List Ref) (q : ℕ)
      → contains_ref m x ≡ false
      → q < length m
      → same_ref (get_or m q no_ref) x ≡ false
  unfolding contains_ref
  distinct_from x [] q h b = elim b [ ]
  distinct_from x (y ∷ m) zero h b = ground arith
  distinct_from x (y ∷ m) (suc q) h b = distinct_from x m q (ground arith) (omega arith)

  -- Two positions of a list without repetition hold different backends.
  pub apart_at :
      (l : List Ref) (p q : ℕ)
      → UniqueRefs l
      → p < length l
      → q < length l
      → p ≢ q
      → same_ref (get_or l p no_ref) (get_or l q no_ref) ≡ false
  unfolding contains_ref
  apart_at [] p q u a b n = elim a [ ]
  apart_at (x ∷ l) zero zero u a b n = absurd (n refl)
  apart_at (x ∷ l) zero (suc q) u a b n =
      same_ref_symm (get_or l q no_ref) x (distinct_from x l q u.0 (omega arith))
  apart_at (x ∷ l) (suc p) zero u a b n = distinct_from x l p u.0 (omega arith)
  apart_at (x ∷ l) (suc p) (suc q) u a b n =
      apart_at l p q u.1 (omega arith) (omega arith) (λ e. n (ap suc e))

lap_mod : (m n : ℕ) → m < n + n → ((m < n) × (m % n ≡ m)) ⊎ ((n ≤ m) × (m % n ≡ m - n))
lap_mod m n h = elim (dec_lt m n) [
  | yes small ↦ inl (small, mod-eq_of_lt small)
  | no big ↦
      inr (omega arith, mod-eq-sub-mod {n = m} {m = n} (omega arith) ∙ mod-eq_of_lt (omega arith))
]

-- Two rounds of one lap stand at different positions.
rounds_apart : (start i j n : ℕ) → j < i → i < n → start < n → (start + j) % n ≢ (start + i) % n
rounds_apart start i j n a b c e =
    omega (arith, lap_mod (start + i) n (omega arith), lap_mod (start + j) n (omega arith))

module _ (g : Gate) (bs : List Ref) (start max : ℕ) (f : PickFilter) where
  abbrev at_round : ℕ → Ref
  at_round i = get_or bs ((start + i) % length bs) no_ref

  -- The candidates so far come from rounds before the `i`-th.
  abbrev FromRounds : ℕ → List Ref → Type 0
  FromRounds i = All (λ x. (j : ℕ) × (j < i) × (x ≡ at_round j))

  unseen :
      (i : ℕ) (out : List Ref)
      → UniqueRefs bs
      → i < length bs
      → start < length bs
      → FromRounds i out
      → contains_ref out (at_round i) ≡ false
  unfolding contains_ref
  unseen i [] u a b h = refl
  unseen i (x ∷ out) u a b ((j, before, is), h) =
      let n = length bs in
      let apart =
        apart_at bs bs ((start + j) % n) ((start + i) % n) u (mod-lt (start + j) (omega arith))
          (mod-lt (start + i) (omega arith)) (rounds_apart start i j n before a b) in
      let apart_x : same_ref x (at_round i) ≡ false = rw is apart in
      rw apart_x (unseen i out u a b h)

  later_rounds : (i : ℕ) (out : List Ref) → FromRounds i out → FromRounds (i + 1) out
  later_rounds i [] h = tt
  later_rounds i (x ∷ out) ((j, before, is), h) = ((j, omega arith, is), later_rounds i out h)

  rotation_loop-IsCandidates :
      (st : g.S) (out : List Ref) (k i : ℕ)
      → UniqueRefs bs
      → start < length bs
      → i + k ≡ length bs
      → IsCandidates bs max out
      → length out < max
      → FromRounds i out
      → IsCandidates bs max (rotation_loop g st out bs start max f k i).1
  unfolding rotation_loop
  rotation_loop-IsCandidates st out zero i u b e c small h = c
  rotation_loop-IsCandidates st out (suc k) i u b e c small h =
      let x = at_round i in
      let new = unseen i out u (omega arith) b h in
      let longer =
        snoc-IsCandidates bs max out x c small new
          (contains_ref-at bs bs ((start + i) % length bs) (mod-lt (start + i) (omega arith))) in
      let a = admits g f st x in
      let old_rounds = later_rounds i out h in
      elim (Bool-cases (a.1)) [
        | inr no_way ↦
            rw (no_way, rotation_loop)
              (rotation_loop-IsCandidates a.0 out k (i + 1) u b (omega arith) c small old_rounds)
        | inl passed ↦ elim (Bool-cases (length (snoc out x) == max)) [
          | inl full ↦ rw (passed, rotation_loop, full) longer
          | inr room ↦
              rw (passed, rotation_loop, room)
                (rotation_loop-IsCandidates a.0 (snoc out x) k (i + 1) u b (omega arith) longer
                  (ground (arith, longer.bounded))
                  (All-snoc (λ y. (j : ℕ) × (j < i + 1) × (y ≡ at_round j)) out x old_rounds
                    (i, omega arith, refl)))
        ]
      ]

  pub collect_rotation-IsCandidates :
      (st : g.S)
      → UniqueRefs bs
      → start < length bs
      → 0 < max
      → IsCandidates bs max (collect_rotation g st [] bs start max f).1
  unfolding collect_rotation
  collect_rotation-IsCandidates st u b pos_max =
      rotation_loop-IsCandidates st [] (length bs) 0 u b (omega arith)
        (record { unique = tt; bounded = omega arith; known = tt }) pos_max tt

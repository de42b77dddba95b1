-- ===== src/Balancer/Preferred.antt =====
-- internal/balancer/balancer.go: a keyed `Pick` against a description of its answer, while the answers
-- about a backend stay the same.
use nw_lb_go.Base.{
  ℕ, zero, suc, ◌≤◌, ◌<◌, ◌≡◌, refl, sym, ◌∙◌, ap, inl, inr, ℤ, pos, negsuc, ltb, Bool, true, false,
  List, [], ◌∷◌, ◌++◌, none, some, Option-cases, Bool-cases, ◌==◌, Str, str_eq, length, snoc,
  length-snoc, snoc-eq-append, append_assoc, take, if◌then◌else◌, arith,
}
use nw_lb_go.Base.Sort.{keep}
use nw_lb_go.Hashring.Ring.{get_n}
use nw_lb_go.Hashring.Prefix.{get_n-Extends}
use nw_lb_go.Balancer.Types.{
  Ref, Snapshot, Balancer, PickFilter, filter_available, filter_healthy, filter_any, find_ref,
  contains_ref, admits,
}
use nw_lb_go.Balancer.Pick.{collect_ring, keyed_ladder, ladder, wanted, pick}
use nw_lb_go.Balancer.Safety.{wanted_pos}
use nw_lb_go.Balancer.Order.{steady, pick_keyed-ladder}

-- The backends that the ids lead to.
abbrev pub resolve : Snapshot → List Str → List Ref
resolve s [] = []
resolve s (id ∷ ids) = elim (find_ref id s.by_id) [
  | none ↦ resolve s ids
  | some b ↦ b ∷ resolve s ids
]

-- Each backend at its first place only, without those in `seen`.
abbrev pub first_places : List Ref → List Ref → List Ref
first_places seen [] = []
first_places seen (b ∷ bs) =
    if contains_ref seen b then first_places seen bs else b ∷ first_places (snoc seen b) bs

-- The first `max` of the backends in `order` that pass.
abbrev pub preferred : ℕ → (Ref → Bool) → List Ref → List Ref
preferred max p order = take max (first_places [] (keep p order))

abbrev pub any_ref : Ref → Bool
any_ref b = true

-- The first of three lists that is not empty.
abbrev pub first_of : List Ref → List Ref → List Ref → List Ref
first_of [] [] zs = zs
first_of [] (y ∷ ys) zs = y ∷ ys
first_of (x ∷ xs) ys zs = x ∷ xs

first_of-test :
    (xs ys zs : List Ref)
    → first_of xs ys zs ≡ (if ltb 0 (length xs) then xs else if ltb 0 (length ys) then ys else zs)
first_of-test [] [] zs = refl
first_of-test [] (y ∷ ys) zs = ground arith
first_of-test (x ∷ xs) ys zs = ground arith

take-append_exact : (n : ℕ) (xs ys : List Ref) → length xs ≡ n → take n (xs ++ ys) ≡ xs
take-append_exact zero [] ys h = refl
take-append_exact zero (x ∷ xs) ys h = absurd (omega arith)
take-append_exact (suc n) [] ys h = absurd (omega arith)
take-append_exact (suc n) (x ∷ xs) ys h = ap (λ l. x ∷ l) (take-append_exact n xs ys (omega arith))

take-all : (n : ℕ) (xs : List Ref) → length xs < n → take n (xs ++ []) ≡ xs
take-all zero xs h = absurd (omega arith)
take-all (suc n) [] h = refl
take-all (suc n) (x ∷ xs) h = ap (λ l. x ∷ l) (take-all n xs (omega arith))

snoc-append : (xs ys : List Ref) (x : Ref) → snoc xs x ++ ys ≡ xs ++ x ∷ ys
snoc-append xs ys x = ap (λ l. l ++ ys) (snoc-eq-append xs x) ∙ append_assoc xs (x ∷ []) ys

module _ (av hl : Ref → Bool) (s : Snapshot) (max : ℕ) where
  abbrev passes : PickFilter → Ref → Bool
  passes filter_available b = av b
  passes filter_healthy b = hl b
  passes filter_any b = true

  admits-passes : (f : PickFilter) (b : Ref) → admits (steady av hl) f tt b ≡ (tt, passes f b)
  unfolding admits
  admits-passes filter_available b = refl
  admits-passes filter_healthy b = refl
  admits-passes filter_any b = refl

  resolve-absent :
      (id : Str) (ids : List Str)
      → find_ref id s.by_id ≡ none
      → resolve s (id ∷ ids) ≡ resolve s ids
  resolve-absent id ids e = rw (resolve, e) refl

  resolve-found :
      (id : Str) (ids : List Str) (b : Ref)
      → find_ref id s.by_id ≡ some b
      → resolve s (id ∷ ids) ≡ b ∷ resolve s ids
  resolve-found id ids b e = rw (resolve, e) refl

  first_places-keep :
      (p : Ref → Bool) (out : List Ref) (b : Ref) (bs : List Ref)
      → first_places out (keep p (b ∷ bs)) ≡ (
          if contains_ref out b
          then first_places out (keep p bs)
          else if p b
          then b ∷ first_places (snoc out b) (keep p bs)
          else first_places out (keep p bs))
  unfolding keep
  first_places-keep p out b bs = elim (Bool-cases (p b)) [
    | inl passed ↦ rw passed refl
    | inr no_way ↦ elim (Bool-cases (contains_ref out b)) [
      | inl old ↦ rw (no_way, old) refl
      | inr new ↦ rw (no_way, new) refl
    ]
  ]

  -- What a walk along `ids` adds to the candidates in `out`.
  abbrev fitted : PickFilter → List Ref → List Ref → List Ref
  fitted f out bs = take max (out ++ first_places out (keep (passes f) bs))

  collect_ring-fitted :
      (f : PickFilter) (out : List Ref) (ids : List Str)
      → length out < max
      → collect_ring (steady av hl) tt out s ids max f ≡ (tt, fitted f out (resolve s ids))
  unfolding collect_ring keep
  collect_ring-fitted f out [] small = ap (λ l. (tt, l)) (sym (take-all max out small))
  collect_ring-fitted f out (id ∷ ids) small =
      let rest = collect_ring-fitted f out ids small in
      elim (Option-cases (find_ref id s.by_id)) [
        | inl absent ↦ rw (resolve-absent id ids absent, absent, collect_ring) rest
        | inr (b, e) ↦
            let found = resolve-found id ids b e in
            let more = first_places (snoc out b) (keep (passes f) (resolve s ids)) in
            let joined : take max (snoc out b ++ more) ≡ take max (out ++ b ∷ more) =
              ap (take max) (snoc-append out more b) in
            let kept = first_places-keep (passes f) out b (resolve s ids) in
            elim (Bool-cases (contains_ref out b)) [
              | inl old ↦ rw (found, kept, e, collect_ring, old) rest
              | inr new ↦ elim (Bool-cases (passes f b)) [
                | inr no_way ↦
                    rw (found, kept, e, collect_ring, new, admits-passes f b, no_way) rest
                | inl passed ↦ elim (Bool-cases (length (snoc out b) == max)) [
                  | inl full ↦
                      let size : length (snoc out b) ≡ max = ground arith in
                      rw (found, kept, e, collect_ring, new, admits-passes f b, passed, full)
                        (ap (λ l. (tt, l))
                          (sym (take-append_exact max (snoc out b) more size) ∙ joined))
                  | inr room ↦
                      let size : length (snoc out b) < max = ground (arith, length-snoc out b) in
                      rw (found, kept, e, collect_ring, new, admits-passes f b, passed, room)
                        (collect_ring-fitted f (snoc out b) ids size ∙ ap (λ l. (tt, l)) joined)
                ]
              ]
            ]
      ]

  ladder_rung :
      (ids : List Str) (f : PickFilter) (fs : List PickFilter) (out : List Ref)
      → 0 < max
      → let r = fitted f [] (resolve s ids) in
        keyed_ladder (steady av hl) tt s ids max (f ∷ fs) out
        ≡ (if ltb 0 (length r) then (tt, r) else keyed_ladder (steady av hl) tt s ids max fs r)
  unfolding keyed_ladder
  ladder_rung ids f fs out pos_max =
      let r = fitted f [] (resolve s ids) in
      let found = collect_ring-fitted f [] ids pos_max in
      rw (keyed_ladder, found)
        (elim (Bool-cases (ltb 0 (length r))) [
          | inl e ↦ rw e found
          | inr e ↦ rw e (ap (λ c. keyed_ladder (steady av hl) c.0 s ids max fs c.1) found)
        ])

  any_found :
      (order : List Ref) → 0 < max → 0 < length order → 0 < length (preferred max any_ref order)
  unfolding keep contains_ref
  any_found [] p h = elim h [ ]
  any_found (b ∷ bs) p h = first_taken max p
    where
      first_taken : (m : ℕ) → 0 < m → 0 < length (preferred m any_ref (b ∷ bs))
      first_taken zero q = elim q [ ]
      first_taken (suc m) q = omega arith

  -- `collectRing` from nothing, down the ladder.
  keyed_ladder-first_of :
      (ids : List Str)
      → 0 < max
      → 0 < length (resolve s ids)
      → let order = resolve s ids in
        (keyed_ladder (steady av hl) tt s ids max ladder []).1
        ≡ first_of (preferred max av order) (preferred max hl order) (preferred max any_ref order)
  keyed_ladder-first_of ids pos_max known =
      let order = resolve s ids in
      let a = preferred max av order in
      let h = preferred max hl order in
      let y = preferred max any_ref order in
      let here : ltb 0 (length y) ≡ true = ground (arith, any_found order pos_max known) in
      ap (λ c. c.1) (ladder_rung ids filter_available (filter_healthy ∷ filter_any ∷ []) [] pos_max)
      ∙ elim (Bool-cases (ltb 0 (length a))) [
        | inl e ↦ rw e (rw (first_of-test a h y, e) refl)
        | inr e ↦ elim (Bool-cases (ltb 0 (length h))) [
          | inl g ↦ rw e (
              ap (λ c. c.1) (ladder_rung ids filter_healthy (filter_any ∷ []) a pos_max)
              ∙ rw g (rw (first_of-test a h y, e, g) refl))
          | inr g ↦ rw e (
              ap (λ c. c.1) (ladder_rung ids filter_healthy (filter_any ∷ []) a pos_max)
              ∙ rw g (
                  ap (λ c. c.1) (ladder_rung ids filter_any [] h pos_max)
                  ∙ rw here (rw (first_of-test a h y, e, g) refl)))
        ]
      ]

-- The backends that a key prefers, the whole ring of them.
abbrev pub key_order : (Str → ℕ) → Balancer → Str → List Ref
key_order sum64 b key = resolve b.snap (get_n sum64 b.ring key (pos (length b.snap.backends)))

wanted_le : (m : ℤ) (n : ℕ) → 0 < n → wanted m n ≤ n
wanted_le (pos zero) n h = ground arith
wanted_le (pos (suc m)) n h = ground arith
wanted_le (negsuc m) n h = ground arith

-- A key prefers nothing of an empty pool.
some_backend :
    (sum64 : Str → ℕ) (b : Balancer) (key : Str)
    → 0 < length (key_order sum64 b key)
    → 0 < length b.snap.backends
unfolding get_n
some_backend sum64 b key known = elim (Bool-cases (length b.snap.backends == 0)) [
  | inl empty ↦ nothing (ground arith)
  | inr full ↦ ground arith
]
  where
    nothing : length b.snap.backends ≡ 0 → 0 < length b.snap.backends
    nothing e =
        let none_left : get_n sum64 b.ring key (pos (length b.snap.backends)) ≡ [] = rw e refl in
        absurd (omega (arith, known, ap (λ ids. length (resolve b.snap ids)) none_left))

-- While no backend changes its health or its breaker's verdict, a keyed `Pick` on a pool of which the
-- ring knows at least one backend returns the first available backends in the key's order, each once
-- and `wanted` of them at most; if none is available, the first healthy ones; and if none is healthy,
-- the first of all. So the two short walks along the ring find what one walk along all of it would.
pub pick-Preferred :
    (av hl : Ref → Bool) (sum64 : Str → ℕ) (b : Balancer) (key : Str) (max_attempts : ℤ)
    → str_eq key [] ≡ false
    → 0 < length (key_order sum64 b key)
    → let max = wanted max_attempts (length b.snap.backends) in
      let order = key_order sum64 b key in
      (pick (steady av hl) sum64 tt b key max_attempts).2
      ≡ first_of (preferred max av order) (preferred max hl order) (preferred max any_ref order)
unfolding pick
pick-Preferred av hl sum64 b key max_attempts keyed known =
    let s = b.snap in
    let n = length s.backends in
    let max = wanted max_attempts n in
    let some_left = some_backend sum64 b key known in
    let not_empty : (n == 0) ≡ false = ground arith in
    let pos_max = wanted_pos max_attempts n some_left in
    let few = get_n sum64 b.ring key (pos max) in
    let full = get_n sum64 b.ring key (pos n) in
    let p = get_n-Extends sum64 b.ring key max n pos_max (wanted_le max_attempts n some_left) in
    rw (not_empty, keyed, pick)
      (ap (λ c. c.1) (pick_keyed-ladder av hl s max few full pos_max p.0.0 p.0.1 p.1)
        ∙ keyed_ladder-first_of av hl s max full pos_max known)

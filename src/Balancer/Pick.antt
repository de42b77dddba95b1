-- ===== src/Balancer/Pick.antt =====
-- internal/balancer/balancer.go: `Pick`, its two collectors and `Rebuild`.
use nw_lb_go.Base.{
  ℕ, zero, suc, ◌+◌, ◌-◌, ◌%◌, ◌^◌, ℤ, pos, pos_part, leb_ℤ, ltb, Bool, true, false, ◌&&◌,
  if◌then◌else◌, List, [], ◌∷◌, map, none, some, ◌==◌, Str, str_eq, length, get_or, snoc,
}
use nw_lb_go.Hashring.Types.{Member}
use nw_lb_go.Hashring.Ring.{get_n, new, set}
use nw_lb_go.Balancer.Types.{
  Ref, same_ref, Gate, Snapshot, Balancer, PickFilter, filter_available, filter_healthy, filter_any,
  find_ref, contains_ref, admits,
}

abbrev pub no_ref : Ref
no_ref = record { ptr = 0; id = []; weight = pos 0 }

abbrev pub ladder : List PickFilter
ladder = filter_available ∷ filter_healthy ∷ filter_any ∷ []

abbrev pub lower_rungs : List PickFilter
lower_rungs = filter_healthy ∷ filter_any ∷ []

-- How many candidates `Pick` looks for.
abbrev pub wanted : ℤ → ℕ → ℕ
wanted max_attempts n =
    let m = if leb_ℤ max_attempts (pos 0) then 1 else pos_part max_attempts in
    if ltb n m then n else m

module _ (g : Gate) where
  -- The loop of `collectRing`. `ok && !contains` comes before the filter is asked.
  unfoldable pub collect_ring :
      g.S → List Ref → Snapshot → List Str → ℕ → PickFilter → g.S × List Ref
  collect_ring st out s [] max f = (st, out)
  collect_ring st out s (id ∷ ids) max f = elim (find_ref id s.by_id) [
    | none ↦ collect_ring st out s ids max f
    | some b ↦ elim (contains_ref out b) [
      | true ↦ collect_ring st out s ids max f
      | false ↦
          let a = admits g f st b in
          elim (a.1) [
            | false ↦ collect_ring a.0 out s ids max f
            | true ↦ elim (length (snoc out b) == max) [
              | true ↦ (a.0, snoc out b)
              | false ↦ collect_ring a.0 (snoc out b) s ids max f
            ]
          ]
    ]
  ]

  -- The loop of `collectRotation`, from its `i`-th round on, with `k` rounds left.
  unfoldable pub rotation_loop :
      g.S → List Ref → List Ref → ℕ → ℕ → PickFilter → ℕ → ℕ → g.S × List Ref
  rotation_loop st out backends start max f zero i = (st, out)
  rotation_loop st out backends start max f (suc k) i =
      let b = get_or backends ((start + i) % length backends) no_ref in
      let a = admits g f st b in
      elim (a.1) [
        | false ↦ rotation_loop a.0 out backends start max f k (i + 1)
        | true ↦ elim (length (snoc out b) == max) [
          | true ↦ (a.0, snoc out b)
          | false ↦ rotation_loop a.0 (snoc out b) backends start max f k (i + 1)
        ]
      ]

  unfoldable pub collect_rotation : g.S → List Ref → List Ref → ℕ → ℕ → PickFilter → g.S × List Ref
  collect_rotation st out backends start max f =
      rotation_loop st out backends start max f (length backends) 0

  unfoldable pub keyless_ladder :
      g.S → Snapshot → ℕ → ℕ → List PickFilter → List Ref → g.S × List Ref
  keyless_ladder st s start max [] out = (st, out)
  keyless_ladder st s start max (f ∷ fs) out =
      let c = collect_rotation st [] s.backends start max f in
      elim (ltb 0 (length c.1)) [ true ↦ c | false ↦ keyless_ladder c.0 s start max fs c.1 ]

  unfoldable pub keyed_ladder :
      g.S → Snapshot → List Str → ℕ → List PickFilter → List Ref → g.S × List Ref
  keyed_ladder st s ids max [] out = collect_rotation st [] s.backends 0 max filter_any
  keyed_ladder st s ids max (f ∷ fs) out =
      let c = collect_ring st [] s ids max f in
      elim (ltb 0 (length c.1)) [ true ↦ c | false ↦ keyed_ladder c.0 s ids max fs c.1 ]

  -- What `Pick` makes of the breaker-admitted candidates it found along `ids`: they are the answer,
  -- if there are any, and else it goes down the ladder.
  unfoldable pub finish_keyed : Snapshot → ℕ → List Str → g.S × List Ref → g.S × List Ref
  finish_keyed s max ids found = elim (ltb 0 (length found.1)) [
    | true ↦ found
    | false ↦ keyed_ladder found.0 s ids max lower_rungs found.1
  ]

  -- The keyed half of `Pick`: `few` and `full` are what the two calls of `GetN` return.
  unfoldable pub pick_keyed : g.S → Snapshot → List Str → List Str → ℕ → g.S × List Ref
  unfolding finish_keyed
  pick_keyed st s few full max =
      let first = collect_ring st [] s few max filter_available in
      let second = collect_ring first.0 first.1 s full max filter_available in
      let short = ltb (length first.1) max && ltb (length few) (length s.backends) in
      if short then finish_keyed s max full second else finish_keyed s max few first

  module _ (sum64 : Str → ℕ) where
    unfoldable pub pick : g.S → Balancer → Str → ℤ → g.S × Balancer × List Ref
    pick st b key max_attempts =
        let s = b.snap in
        let n = length s.backends in
        let max = wanted max_attempts n in
        let rr = (b.rr + 1) % 2 ^ 64 in
        let start = (rr + 2 ^ 64 - 1) % 2 ^ 64 % n in
        let few = get_n sum64 b.ring key (pos max) in
        let full = get_n sum64 b.ring key (pos n) in
        let rotated = keyless_ladder st s start max ladder [] in
        let keyed = pick_keyed st s few full max in
        if n == 0
        then (st, b, [])
        else if str_eq key []
        then (rotated.0, record b { rr = rr }, rotated.1)
        else (keyed.0, b, keyed.1)

-- `sameMembership` compares pointers, in order.
unfoldable pub same_membership : List Ref → List Ref → Bool
same_membership [] [] = true
same_membership (x ∷ xs) (y ∷ ys) = same_ref x y && same_membership xs ys
same_membership _ _ = false

-- `byID[bk.ID()] = bk`, for each backend in turn.
unfoldable pub put_ref : Ref → List (Str × Ref) → List (Str × Ref)
put_ref b [] = (b.id, b) ∷ []
put_ref b ((k, x) ∷ m) = if str_eq k b.id then (k, b) ∷ m else (k, x) ∷ put_ref b m

unfoldable pub index_refs : List (Str × Ref) → List Ref → List (Str × Ref)
index_refs m [] = m
index_refs m (b ∷ bs) = index_refs (put_ref b m) bs

abbrev pub member_of : Ref → Member
member_of b = record { id = b.id; weight = b.weight }

-- `backends` is what `pool.Backends()` returns.
unfoldable pub rebuild : (Str → ℕ) → Balancer → List Ref → Balancer
unfolding same_membership index_refs put_ref
rebuild sum64 b backends =
    if b.closed then b else if same_membership b.snap.backends backends then b else record b {
      ring = set sum64 b.ring (map member_of backends);
      snap = record { backends = backends; by_id = index_refs [] backends };
    }

-- `New`: from an empty ring and an empty snapshot.
unfoldable pub new_balancer : (Str → ℕ) → ℤ → List Ref → Balancer
unfolding rebuild
new_balancer sum64 virtual_nodes backends =
    rebuild sum64
      (record {
        ring = new sum64 (if leb_ℤ virtual_nodes (pos 0) then pos 200 else virtual_nodes) [];
        snap = record { backends = []; by_id = [] };
        rr = 0;
        closed = false;
      })
      backends

unfoldable pub close : Balancer → Balancer
close b = record b { closed = true }

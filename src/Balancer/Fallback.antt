-- ===== src/Balancer/Fallback.antt =====
-- internal/balancer/balancer.go: the ladder's last rung. `Pick` answers while there is a backend.
use nw_lb_go.Base.{
  ℕ, zero, suc, ◌+◌, ◌-◌, ◌%◌, ◌^◌, ◌≤◌, ◌<◌, ◌≡◌, inl, inr, ℤ, pos, ltb, true, false, List, [],
  ◌∷◌, ◌&&◌, Bool-cases, ◌==◌, Str, str_eq, length, get_or, length-snoc, snoc, arith,
}
use nw_lb_go.Hashring.Ring.{get_n}
use nw_lb_go.Balancer.Types.{
  Ref, Gate, Snapshot, Balancer, PickFilter, filter_available, filter_healthy, filter_any, admits,
}
use nw_lb_go.Balancer.Pick.{
  collect_ring, rotation_loop, collect_rotation, keyless_ladder, keyed_ladder, finish_keyed,
  lower_rungs, pick_keyed, wanted, pick, no_ref,
}

module _ (g : Gate) where
  -- The rounds only ever add candidates.
  rotation_loop-grows :
      (st : g.S) (out bs : List Ref) (start max : ℕ) (f : PickFilter) (k i : ℕ)
      → length out ≤ length (rotation_loop g st out bs start max f k i).1
  unfolding rotation_loop
  rotation_loop-grows st out bs start max f zero i = omega arith
  rotation_loop-grows st out bs start max f (suc k) i =
      let x = get_or bs ((start + i) % length bs) no_ref in
      let a = admits g f st x in
      elim (Bool-cases (a.1)) [
        | inr no_way ↦
            rw (no_way, rotation_loop) (rotation_loop-grows a.0 out bs start max f k (i + 1))
        | inl passed ↦ elim (Bool-cases (length (snoc out x) == max)) [
          | inl full ↦ rw (passed, rotation_loop, full) (omega (arith, length-snoc out x))
          | inr room ↦
              rw (passed, rotation_loop, room)
                (omega (
                  arith,
                  length-snoc out x,
                  rotation_loop-grows a.0 (snoc out x) bs start max f k (i + 1),
                ))
        ]
      ]

  rotation_any_finds :
      (st : g.S) (out bs : List Ref) (start max k i : ℕ)
      → 0 < length (rotation_loop g st out bs start max filter_any (suc k) i).1
  unfolding rotation_loop admits
  rotation_any_finds st out bs start max k i =
      let x = get_or bs ((start + i) % length bs) no_ref in
      elim (Bool-cases (length (snoc out x) == max)) [
        | inl full ↦ rw (rotation_loop, full) (omega (arith, length-snoc out x))
        | inr room ↦
            rw (rotation_loop, room)
              (omega (
                arith,
                length-snoc out x,
                rotation_loop-grows st (snoc out x) bs start max filter_any k (i + 1),
              ))
      ]

  collect_any_finds :
      (st : g.S) (bs : List Ref) (start max : ℕ)
      → 0 < length bs
      → 0 < length (collect_rotation g st [] bs start max filter_any).1
  unfolding collect_rotation
  collect_any_finds st [] start max h = elim h [ ]
  collect_any_finds st (b ∷ bs) start max h =
      rotation_any_finds st [] (b ∷ bs) start max (length bs) 0

  module _ (s : Snapshot) (max : ℕ) (some_left : 0 < length s.backends) where
    keyless_any_finds :
        (st : g.S) (start : ℕ) (out : List Ref)
        → 0 < length (keyless_ladder g st s start max (filter_any ∷ []) out).1
    unfolding keyless_ladder
    keyless_any_finds st start out =
        let e : ltb 0 (length (collect_rotation g st [] s.backends start max filter_any).1) ≡ true =
          ground (arith, collect_any_finds st s.backends start max some_left) in
        rw (e, keyless_ladder) (collect_any_finds st s.backends start max some_left)

    -- A rung above the last can only help.
    keyless_rung :
        (st : g.S) (start : ℕ) (f : PickFilter) (fs : List PickFilter) (out : List Ref)
        → ((st' : g.S) (out' : List Ref) → 0 < length (keyless_ladder g st' s start max fs out').1)
        → 0 < length (keyless_ladder g st s start max (f ∷ fs) out).1
    unfolding keyless_ladder
    keyless_rung st start f fs out rest =
        let r = collect_rotation g st [] s.backends start max f in
        elim (Bool-cases (ltb 0 (length r.1))) [
          | inl e ↦ rw (e, keyless_ladder) (ground arith)
          | inr e ↦ rw (e, keyless_ladder) (rest r.0 r.1)
        ]

    keyed_ladder_finds :
        (st : g.S) (ids : List Str) (fs : List PickFilter) (out : List Ref)
        → 0 < length (keyed_ladder g st s ids max fs out).1
    unfolding keyed_ladder
    keyed_ladder_finds st ids [] out = collect_any_finds st s.backends 0 max some_left
    keyed_ladder_finds st ids (f ∷ fs) out =
        let r = collect_ring g st [] s ids max f in
        elim (Bool-cases (ltb 0 (length r.1))) [
          | inl e ↦ rw (e, keyed_ladder) (ground arith)
          | inr e ↦ rw (e, keyed_ladder) (keyed_ladder_finds r.0 ids fs r.1)
        ]

    finish_keyed_finds :
        (ids : List Str) (found : g.S × List Ref) → 0 < length (finish_keyed g s max ids found).1
    unfolding finish_keyed
    finish_keyed_finds ids found = elim (Bool-cases (ltb 0 (length found.1))) [
      | inl e ↦ rw (e, finish_keyed) (ground arith)
      | inr e ↦ rw (e, finish_keyed) (keyed_ladder_finds found.0 ids lower_rungs found.1)
    ]

    pick_keyed_finds :
        (st : g.S) (few full : List Str) → 0 < length (pick_keyed g st s few full max).1
    unfolding pick_keyed
    pick_keyed_finds st few full =
        let first = collect_ring g st [] s few max filter_available in
        let second = collect_ring g first.0 first.1 s full max filter_available in
        elim (Bool-cases (ltb (length first.1) max && ltb (length few) (length s.backends))) [
          | inl short ↦ rw (short, pick_keyed) (finish_keyed_finds full second)
          | inr long ↦ rw (long, pick_keyed) (finish_keyed_finds few first)
        ]

-- While the snapshot holds a backend, `Pick` returns one, though every health check and every breaker
-- may say no and the ring may be empty: it fails open.
pub pick_fails_open :
    (g : Gate) (sum64 : Str → ℕ) (st : g.S) (b : Balancer) (key : Str) (max_attempts : ℤ)
    → 0 < length b.snap.backends
    → 0 < length (pick g sum64 st b key max_attempts).2
unfolding pick
pick_fails_open g sum64 st b key max_attempts h =
    let s = b.snap in
    let n = length s.backends in
    let max = wanted max_attempts n in
    let some_left : (n == 0) ≡ false = ground arith in
    elim (Bool-cases (str_eq key [])) [
      | inl keyless ↦
          let start = ((b.rr + 1) % 2 ^ 64 + 2 ^ 64 - 1) % 2 ^ 64 % n in
          rw (some_left, keyless, pick)
            (keyless_rung g s max h st start filter_available (filter_healthy ∷ filter_any ∷ []) []
              (λ st' out'.
                keyless_rung g s max h st' start filter_healthy (filter_any ∷ []) out'
                  (λ st'' out''. keyless_any_finds g s max h st'' start out'')))
      | inr keyed ↦
          rw (some_left, keyed, pick)
            (pick_keyed_finds g s max h st (get_n sum64 b.ring key (pos max))
              (get_n sum64 b.ring key (pos n)))
    ]

-- ===== src/Balancer/Safety.antt =====
-- internal/balancer/balancer.go: what every `Pick` promises, whatever the health checker and the
-- breakers answer meanwhile, and whatever the ring returns.
use nw_lb_go.Base.{
  ℕ, zero, suc, ◌+◌, ◌-◌, ◌%◌, ◌^◌, ◌<◌, ◌≡◌, refl, inl, inr, not, if◌then◌else◌, ℤ, pos, negsuc,
  ltb, List, [], ◌∷◌, ◌&&◌, Bool-cases, ◌==◌, Str, str_eq, length, arith,
}
use native.Mathlib.Nat.{mod-lt}
use nw_lb_go.Hashring.Ring.{get_n}
use nw_lb_go.Balancer.Types.{
  Ref, Gate, Snapshot, Balancer, PickFilter, filter_available, filter_any,
}
use nw_lb_go.Balancer.Pick.{
  collect_ring, collect_rotation, keyless_ladder, keyed_ladder, lower_rungs, ladder, finish_keyed,
  pick_keyed, wanted, pick,
}
use nw_lb_go.Balancer.Collect.{
  UniqueRefs, IsIndexed, IsCandidates, collect_ring-IsCandidates, collect_rotation-IsCandidates,
}

-- No backend stands twice in the snapshot, and its index leads into it.
pub record IsConsistent (s : Snapshot) : Type 0 where
  pub distinct : UniqueRefs s.backends
  pub indexed : IsIndexed s

empty-IsCandidates : (bs : List Ref) (max : ℕ) → IsCandidates bs max []
empty-IsCandidates bs max = record { unique = tt; bounded = omega arith; known = tt }

pub wanted_pos : (m : ℤ) (n : ℕ) → 0 < n → 0 < wanted m n
wanted_pos (pos zero) n h = ground arith
wanted_pos (pos (suc m)) n h = ground arith
wanted_pos (negsuc m) n h = ground arith

module _ (g : Gate) (s : Snapshot) (max : ℕ) (ok : IsConsistent s) (pos_max : 0 < max) where
  keyless_ladder-IsCandidates :
      (st : g.S) (start : ℕ) (fs : List PickFilter) (out : List Ref)
      → start < length s.backends
      → IsCandidates s.backends max out
      → IsCandidates s.backends max (keyless_ladder g st s start max fs out).1
  unfolding keyless_ladder
  keyless_ladder-IsCandidates st start [] out b c = c
  keyless_ladder-IsCandidates st start (f ∷ fs) out b c =
      let r = collect_rotation g st [] s.backends start max f in
      let d = collect_rotation-IsCandidates g s.backends start max f st ok.distinct b pos_max in
      elim (Bool-cases (ltb 0 (length r.1))) [
        | inl some_found ↦ rw (some_found, keyless_ladder) d
        | inr none_found ↦
            rw (none_found, keyless_ladder) (keyless_ladder-IsCandidates r.0 start fs r.1 b d)
      ]

  keyed_ladder-IsCandidates :
      (st : g.S) (ids : List Str) (fs : List PickFilter) (out : List Ref)
      → 0 < length s.backends
      → IsCandidates s.backends max (keyed_ladder g st s ids max fs out).1
  unfolding keyed_ladder
  keyed_ladder-IsCandidates st ids [] out b =
      collect_rotation-IsCandidates g s.backends 0 max filter_any st ok.distinct b pos_max
  keyed_ladder-IsCandidates st ids (f ∷ fs) out b =
      let r = collect_ring g st [] s ids max f in
      let d =
        collect_ring-IsCandidates g s max f ok.indexed st [] ids (empty-IsCandidates s.backends max)
          pos_max in
      elim (Bool-cases (ltb 0 (length r.1))) [
        | inl some_found ↦ rw (some_found, keyed_ladder) d
        | inr none_found ↦
            rw (none_found, keyed_ladder) (keyed_ladder-IsCandidates r.0 ids fs r.1 b)
      ]

  finish_keyed-IsCandidates :
      (ids : List Str) (found : g.S × List Ref)
      → 0 < length s.backends
      → IsCandidates s.backends max found.1
      → IsCandidates s.backends max (finish_keyed g s max ids found).1
  unfolding finish_keyed
  finish_keyed-IsCandidates ids found b c = elim (Bool-cases (ltb 0 (length found.1))) [
    | inl e ↦ rw (e, finish_keyed) c
    | inr e ↦ rw (e, finish_keyed) (keyed_ladder-IsCandidates found.0 ids lower_rungs found.1 b)
  ]

  pick_keyed-IsCandidates :
      (st : g.S) (few full : List Str)
      → 0 < length s.backends
      → IsCandidates s.backends max (pick_keyed g st s few full max).1
  unfolding pick_keyed
  pick_keyed-IsCandidates st few full b =
      let first = collect_ring g st [] s few max filter_available in
      let second = collect_ring g first.0 first.1 s full max filter_available in
      let c =
        collect_ring-IsCandidates g s max filter_available ok.indexed st [] few
          (empty-IsCandidates s.backends max) pos_max in
      elim (Bool-cases (ltb (length first.1) max && ltb (length few) (length s.backends))) [
        | inl short ↦
            let d =
              collect_ring-IsCandidates g s max filter_available ok.indexed first.0 first.1 full c
                (ground arith) in
            rw (short, pick_keyed) (finish_keyed-IsCandidates full second b d)
        | inr long ↦ rw (long, pick_keyed) (finish_keyed-IsCandidates few first b c)
      ]

-- The counter after a keyless `Pick`, and where that one starts.
abbrev pub next_rr : Balancer → Balancer
next_rr b = record b { rr = (b.rr + 1) % 2 ^ 64 }

-- A `Pick` returns distinct backends of the snapshot, no more of them than `wanted` (`maxAttempts`,
-- but at least one and at most all), for any key, hash function and ring, and any behaviour of health
-- and breakers. A keyless one on a pool with backends moves the round-robin counter on by one, modulo
-- 2 ^ 64; any other changes nothing of the balancer.
pub pick-IsCandidates :
    (g : Gate) (sum64 : Str → ℕ) (st : g.S) (b : Balancer) (key : Str) (max_attempts : ℤ)
    → IsConsistent b.snap
    → let r = pick g sum64 st b key max_attempts in
      IsCandidates b.snap.backends (wanted max_attempts (length b.snap.backends)) r.2
      × (r.1 ≡ (if not (length b.snap.backends == 0) && str_eq key [] then next_rr b else b))
unfolding pick
pick-IsCandidates g sum64 st b key max_attempts ok =
    let s = b.snap in
    let n = length s.backends in
    let max = wanted max_attempts n in
    elim (Bool-cases (n == 0)) [
      | inl none_left ↦ rw (none_left, pick) (empty-IsCandidates s.backends max, refl)
      | inr some_left ↦
          let full : 0 < n = ground arith in
          let pos_max : 0 < max = wanted_pos max_attempts n full in
          elim (Bool-cases (str_eq key [])) [
            | inl keyless ↦
                rw (some_left, keyless, pick)
                  (
                    keyless_ladder-IsCandidates g s max ok pos_max st
                        (((b.rr + 1) % 2 ^ 64 + 2 ^ 64 - 1) % 2 ^ 64 % n) ladder []
                        (mod-lt (((b.rr + 1) % 2 ^ 64 + 2 ^ 64 - 1) % 2 ^ 64) full)
                        (empty-IsCandidates s.backends max),
                    refl,
                  )
            | inr keyed ↦
                rw (some_left, keyed, pick)
                  (
                    pick_keyed-IsCandidates g s max ok pos_max st (get_n sum64 b.ring key (pos max))
                        (get_n sum64 b.ring key (pos n)) full,
                    refl,
                  )
          ]
    ]

-- ===== src/Pool/Mirror.antt =====
-- internal/pool/pool.go, `newPool`: from a valid list of backends only a dial can fail, and the pool
-- mirrors the list.
use nw_lb_go.Base.{
  ℕ, ◌+◌, ◌<◌, ◌≡◌, refl, sym, pos, pos_part, leb_ℤ, Bool, true, false, if◌then◌else◌, List, [],
  ◌∷◌, ◌++◌, map, snoc, Option, none, Option-cases, inl, inr, Str, str_eq, All, All-snoc, arith,
}
use mathlib.Core.List.{append-nil}
use nw_lb_go.Circuit.Registry.{Registry, get}
use nw_lb_go.Config.Types.{default_weight}
use nw_lb_go.Config.Types
use nw_lb_go.Config.Names.{Distinct, ids_of, addrs_of}
use nw_lb_go.Config.Valid.{AreUsable, NonEmpty}
use nw_lb_go.Pool.Backend.{Backend, state_unknown}
use nw_lb_go.Pool.Build.{
  Pool, BuildError, dial_failed, has_id, Built, pool, failed, refuses, enter, new_pool_loop,
  new_pool,
}
use nw_lb_go.Pool.Dialled.{map-snoc, snoc_then, loop_down, loop_up}

abbrev pub backend_ids : List Backend → List Str
backend_ids = map (λ (b : Backend). b.id)

abbrev pub backend_addrs : List Backend → List Str
backend_addrs = map (λ (b : Backend). b.addr)

abbrev pub blames_dial : BuildError → Bool
blames_dial (dial_failed id addr) = true
blames_dial _ = false

-- A backend as it starts: of unknown health, with a positive weight.
abbrev pub Starts : Backend → Type 0
Starts b = (b.state ≡ state_unknown) × (0 < pos_part b.weight)

-- The ids and addresses are the given ones, in order; or a dial failed.
abbrev pub Mirrors : List Str → List Str → Built → Type 0
Mirrors ids addrs (pool p) =
    (backend_ids p.backends ≡ ids) × (backend_addrs p.backends ≡ addrs) × All Starts p.backends
Mirrors ids addrs (failed e closed) = blames_dial e ≡ true

has_id-snoc :
    (x : Str) (bs : List Backend) (b : Backend)
    → has_id x bs ≡ false
    → str_eq b.id x ≡ false
    → has_id x (snoc bs b) ≡ false
unfolding has_id
has_id-snoc x [] b h n = rw n
has_id-snoc x (c ∷ bs) b h n = ground (arith, has_id-snoc x bs b)

still_new :
    (xs : List Str) (bs : List Backend) (b : Backend)
    → All (λ x. has_id x bs ≡ false) xs
    → All (λ x. str_eq b.id x ≡ false) xs
    → All (λ x. has_id x (snoc bs b) ≡ false) xs
still_new [] bs b h n = tt
still_new (x ∷ xs) bs b h n = (has_id-snoc x bs b h.0 n.0, still_new xs bs b h.1 n.1)

module _ (enabled : Bool) (now : ℕ) where
  abbrev made : Pool → Types.Backend → ℕ → Backend
  made p bc conn = record {
    id = bc.id;
    addr = bc.addr;
    weight = if leb_ℤ bc.weight (pos 0) then default_weight else bc.weight;
    conn = conn;
    breaker = (get p.breakers bc.id now).1;
    breaker_enabled = enabled;
    state = state_unknown;
  }

  enter-backends :
      (p : Pool) (bc : Types.Backend) (conn : ℕ)
      → (enter p bc enabled conn now).backends ≡ snoc p.backends (made p bc conn)
  unfolding enter
  enter-backends p bc conn = refl

  made-Starts : (p : Pool) (bc : Types.Backend) (conn : ℕ) → Starts (made p bc conn)
  made-Starts p bc conn = (refl, ground arith)

  fine :
      (p : Pool) (i : ℕ) (bc : Types.Backend)
      → NonEmpty bc.id
      → NonEmpty bc.addr
      → has_id bc.id p.backends ≡ false
      → refuses p i bc ≡ none
  unfolding refuses
  fine p i bc n m h = rw (n, m, h)

  loop-Mirrors :
      {D : Type 0} (dial : D → Str → D × Option ℕ) (d : D) (p : Pool) (i : ℕ)
      (bcs : List Types.Backend)
      → All NonEmpty (ids_of bcs)
      → All NonEmpty (addrs_of bcs)
      → Distinct (ids_of bcs)
      → All (λ x. has_id x p.backends ≡ false) (ids_of bcs)
      → All Starts p.backends
      → Mirrors
          (backend_ids p.backends ++ ids_of bcs)
          (backend_addrs p.backends ++ addrs_of bcs)
          (new_pool_loop dial d p i bcs enabled now).1
  unfolding new_pool_loop
  loop-Mirrors dial d p i [] n m u f s = (sym (append-nil _), sym (append-nil _), s)
  loop-Mirrors dial d p i (bc ∷ bcs) n m u f s =
      let ok = fine p i bc n.0 m.0 f.0 in
      elim (Option-cases (dial d bc.addr).1) [
        | inl down ↦ rw (loop_down dial d p i bc bcs enabled now ok down) refl
        | inr (conn, up) ↦
            let b = made p bc conn in
            let q = enter p bc enabled conn now in
            let e = enter-backends p bc conn in
            let rest =
              loop-Mirrors dial (dial d bc.addr).0 q (i + 1) bcs n.1 m.1 u.1
                (rw e (still_new (ids_of bcs) p.backends b f.1 u.0))
                (rw e (All-snoc Starts p.backends b s (made-Starts p bc conn))) in
            let ids : backend_ids q.backends ++ ids_of bcs
                ≡ backend_ids p.backends ++ bc.id ∷ ids_of bcs =
              rw (e, map-snoc (λ (x : Backend). x.id) p.backends b)
                (snoc_then (backend_ids p.backends) bc.id (ids_of bcs)) in
            let addrs : backend_addrs q.backends ++ addrs_of bcs
                ≡ backend_addrs p.backends ++ bc.addr ∷ addrs_of bcs =
              rw (e, map-snoc (λ (x : Backend). x.addr) p.backends b)
                (snoc_then (backend_addrs p.backends) bc.addr (addrs_of bcs)) in
            rw (loop_up dial d p i bc bcs enabled now conn ok up, ← ids, ← addrs) rest
      ]

-- From backends that `Validate` accepts, `newPool` fails only if a dial does. The pool that it builds
-- has the given ids and addresses in the given order, and every backend starts with unknown health and
-- a positive weight.
pub new_pool-Mirrors :
    {D : Type 0} (dial : D → Str → D × Option ℕ) (d : D) (r : Registry) (bcs : List Types.Backend)
    (enabled : Bool) (now : ℕ)
    → AreUsable bcs
    → Mirrors (ids_of bcs) (addrs_of bcs) (new_pool dial d r bcs enabled now).1
unfolding new_pool has_id
new_pool-Mirrors dial d r bcs enabled now v =
    loop-Mirrors enabled now dial d (record { backends = []; breakers = r }) 0 bcs v.ids_named
      v.addrs_named v.ids_distinct (nobody (ids_of bcs)) tt
  where
    nobody : (xs : List Str) → All (λ x. has_id x [] ≡ false) xs
    nobody [] = tt
    nobody (x ∷ xs) = (refl, nobody xs)

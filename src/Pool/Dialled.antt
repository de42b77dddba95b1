-- ===== src/Pool/Dialled.antt =====
-- internal/pool/pool.go, `newPool`: no connection is lost, and what a built pool holds.
use nw_lb_go.Base.{
  ℕ, ◌+◌, ◌≡◌, refl, ap, ◌∙◌, Bool, List, [], ◌∷◌, ◌++◌, map, snoc, Option, none, some,
  Option-cases, inl, inr, Str,
}
use nw_lb_go.Circuit.Registry.{Registry}
use nw_lb_go.Config.Types.{default_weight}
use nw_lb_go.Config.Types
use nw_lb_go.Pool.Backend.{Backend}
use nw_lb_go.Pool.Build.{
  Pool, BuildError, dial_failed, Built, pool, failed, conns, refuses, enter, new_pool_loop,
  new_pool,
}

pub map-snoc {ℓ κ} :
    {A : Type ℓ} {B : Type κ} (f : A → B) (xs : List A) (x : A)
    → map f (snoc xs x) ≡ snoc (map f xs) (f x)
map-snoc f [] x = refl
map-snoc f (y ∷ xs) x = ap (◌∷◌ (f y)) (map-snoc f xs x)

pub snoc_then {ℓ} :
    {A : Type ℓ} (xs : List A) (x : A) (ys : List A) → snoc xs x ++ ys ≡ xs ++ x ∷ ys
snoc_then [] x ys = refl
snoc_then (y ∷ xs) x ys = ap (◌∷◌ y) (snoc_then xs x ys)

-- A dialler that writes down each connection that it returns.
abbrev pub logging :
    {D : Type 0} → (D → Str → D × Option ℕ) → D × List ℕ → Str → (D × List ℕ) × Option ℕ
logging dial (d, log) addr =
    let r = dial d addr in
    elim (r.1) [ none ↦ ((r.0, log), none) | some conn ↦ ((r.0, snoc log conn), some conn) ]

-- The connections that a call of `newPool` answers for: those of the pool, or those it has closed.
abbrev pub accounted : Built → List ℕ
accounted (pool p) = conns p.backends
accounted (failed e closed) = closed

logging_none :
    {D : Type 0} (dial : D → Str → D × Option ℕ) (d : D) (log : List ℕ) (a : Str)
    → (dial d a).1 ≡ none
    → logging dial (d, log) a ≡ (((dial d a).0, log), none)
logging_none dial d log a e = rw (e, logging)

logging_some :
    {D : Type 0} (dial : D → Str → D × Option ℕ) (d : D) (log : List ℕ) (a : Str) (conn : ℕ)
    → (dial d a).1 ≡ some conn
    → logging dial (d, log) a ≡ (((dial d a).0, snoc log conn), some conn)
logging_some dial d log a conn e = rw (e, logging)

enter-conns :
    (p : Pool) (bc : Types.Backend) (enabled : Bool) (conn now : ℕ)
    → conns (enter p bc enabled conn now).backends ≡ snoc (conns p.backends) conn
unfolding enter conns
enter-conns p bc enabled conn now = map-snoc (λ (b : Backend). b.conn) p.backends _

module _ {D : Type 0} (dial : D → Str → D × Option ℕ) (d : D) (p : Pool) (i : ℕ)
    (bc : Types.Backend) (bcs : List Types.Backend) (enabled : Bool) (now : ℕ) where
  pub loop_refused :
      (e : BuildError)
      → refuses p i bc ≡ some e
      → new_pool_loop dial d p i (bc ∷ bcs) enabled now ≡ (d, failed e (conns p.backends))
  unfolding new_pool_loop
  loop_refused e h = rw (h, new_pool_loop)

  pub loop_down :
      refuses p i bc ≡ none
      → (dial d bc.addr).1 ≡ none
      → new_pool_loop dial d p i (bc ∷ bcs) enabled now
        ≡ ((dial d bc.addr).0, failed (dial_failed bc.id bc.addr) (conns p.backends))
  unfolding new_pool_loop
  loop_down h e = rw (h, new_pool_loop, e)

  pub loop_up :
      (conn : ℕ)
      → refuses p i bc ≡ none
      → (dial d bc.addr).1 ≡ some conn
      → new_pool_loop dial d p i (bc ∷ bcs) enabled now
        ≡ new_pool_loop dial
            (dial d bc.addr).0
            (enter p bc enabled conn now)
            (i + 1)
            bcs
            enabled
            now
  unfolding new_pool_loop
  loop_up conn h e = rw (h, new_pool_loop, e)

loop-accounted :
    {D : Type 0} (dial : D → Str → D × Option ℕ) (d : D) (log : List ℕ) (p : Pool) (i : ℕ)
    (bcs : List Types.Backend) (enabled : Bool) (now : ℕ)
    → conns p.backends ≡ log
    → let r = new_pool_loop (logging dial) (d, log) p i bcs enabled now in accounted r.1 ≡ r.0.1
unfolding new_pool_loop
loop-accounted dial d log p i [] enabled now e = e
loop-accounted dial d log p i (bc ∷ bcs) enabled now e = elim (Option-cases (refuses p i bc)) [
  | inr (x, refused) ↦ rw (loop_refused (logging dial) (d, log) p i bc bcs enabled now x refused) e
  | inl fine ↦ elim (Option-cases (dial d bc.addr).1) [
    | inl down ↦
        let l = logging_none dial d log bc.addr down in
        rw (loop_down (logging dial) (d, log) p i bc bcs enabled now fine (ap (λ x. x.1) l), l) e
    | inr (conn, up) ↦
        let l = logging_some dial d log bc.addr conn up in
        rw (loop_up (logging dial) (d, log) p i bc bcs enabled now conn fine (ap (λ x. x.1) l), l)
          (loop-accounted dial (dial d bc.addr).0 (snoc log conn) (enter p bc enabled conn now)
            (i + 1) bcs enabled now (enter-conns p bc enabled conn now ∙ ap (λ l. snoc l conn) e))
  ]
]

-- No connection is lost and none is closed twice: whatever the backends and the dialler, the
-- connections that the dialler returned are, in order, those of the pool if one is built, and those
-- that are closed if `newPool` fails.
pub new_pool_accounts :
    {D : Type 0} (dial : D → Str → D × Option ℕ) (d : D) (r : Registry) (bcs : List Types.Backend)
    (enabled : Bool) (now : ℕ)
    → let out = new_pool (logging dial) (d, []) r bcs enabled now in accounted out.1 ≡ out.0.1
unfolding new_pool
new_pool_accounts dial d r bcs enabled now =
    loop-accounted dial d [] (record { backends = []; breakers = r }) 0 bcs enabled now
      (unfold conns in refl)

-- ===== src/Pool/Close.antt =====
-- internal/pool/pool.go: `Get`, `Healthy` and `Close`. Whether a connection's `Close` fails is
-- third-party code: the parameter `fails`.
use nw_lb_go.Base.{
  ℕ, ◌≡◌, refl, Bool, true, false, if◌then◌else◌, List, [], ◌∷◌, ◌++◌, Option, none, some, Str,
  str_eq,
}
use nw_lb_go.Base.Sort.{keep}
use nw_lb_go.Pool.Backend.{Backend, healthy}
use nw_lb_go.Pool.Build.{Pool, conns}

unfoldable pub find_backend : Str → List Backend → Option Backend
find_backend id [] = none
find_backend id (b ∷ bs) = if str_eq b.id id then some b else find_backend id bs

unfoldable pub get_backend : Pool → Str → Option Backend
get_backend p id = find_backend id p.backends

unfoldable pub healthy_backends : Pool → List Backend
healthy_backends p = keep healthy p.backends

-- The id and address that an error of `closeConns` names.
pub record CloseError : Type 0 where
  pub id : Str
  pub addr : Str

-- `closeOnce` and `closeErr`, with the connections on which `Close` was called, in order.
pub record Closing : Type 0 where
  pub done : Bool
  pub errs : List CloseError
  pub closed : List ℕ

module _ (fails : ℕ → Bool) where
  unfoldable pub close_errs : List Backend → List CloseError
  close_errs [] = []
  close_errs (b ∷ bs) =
      let rest = close_errs bs in
      if fails b.conn then record { id = b.id; addr = b.addr } ∷ rest else rest

  unfoldable pub close : Pool → Closing → Closing × List CloseError
  unfolding close_errs
  close p c =
      let errs = close_errs p.backends in
      if c.done
      then (c, c.errs)
      else (record { done = true; errs = errs; closed = c.closed ++ conns p.backends }, errs)

  abbrev pub never_closed : Closing
  never_closed = record { done = false; errs = []; closed = [] }

  -- The first `Close` closes every connection of the pool, in order. Another one closes nothing, and
  -- returns what the first returned.
  pub close_twice :
      (p : Pool)
      → let first = close p never_closed in
        (first.0.closed ≡ conns p.backends) × (close p first.0 ≡ first)
  unfolding close
  close_twice p = (refl, refl)

-- ===== src/Examples/Pools.antt =====
-- internal/config/config.go and internal/pool/pool.go on concrete configurations.
use nw_lb_go.Base.{
  ℕ, ◌+◌, ◌≡◌, ◌↔◌, refl, pos, true, if◌then◌else◌, List, [], ◌∷◌, Option, none, some, Str, str_eq,
  codes, arith,
}
use nw_lb_go.Circuit.Registry.{new_registry, named}
use nw_lb_go.Config.Types.{Config, Float, decimal}
use nw_lb_go.Config.Types
use nw_lb_go.Config.Default.{default}
use nw_lb_go.Config.Names.{ids_of, addrs_of}
use nw_lb_go.Config.Validate.{validate}
use nw_lb_go.Config.Valid.{AreUsable, IsValid}
use nw_lb_go.Config.Accepts.{validate_iff}
use nw_lb_go.Pool.Backend.{Backend, state_healthy}
use nw_lb_go.Pool.Build.{Pool, new_pool}
use nw_lb_go.Pool.Dialled.{logging, accounted, new_pool_accounts}
use nw_lb_go.Pool.Mirror.{Mirrors, new_pool-Mirrors}
use nw_lb_go.Examples.Breakers.{strict}

abbrev pair : List Types.Backend
pair =
    record { id = codes "a"; addr = codes "h:1"; weight = pos 100 }
    ∷ record { id = codes "b"; addr = codes "h:2"; weight = pos 50 }
    ∷ []

pair-AreUsable : AreUsable pair
unfolding str_eq
pair-AreUsable = record {
  some_backend = omega arith;
  ids_named = (refl, (refl, tt));
  ids_distinct = ((refl, tt), (tt, tt));
  addrs_named = (refl, (refl, tt));
  addrs_distinct = ((refl, tt), (tt, tt));
  weights_pos = (omega arith, (omega arith, tt));
}

validate_iff_example :
    (validate (record default { backends = pair }) ≡ [])
    ↔ IsValid (record default { backends = pair })
validate_iff_example = validate_iff (record default { backends = pair })

abbrev no_float : Str → Option Float
no_float s = none

-- A dialler that numbers its connections, and cannot reach the address that it is given.
abbrev dial_but : Str → ℕ → Str → ℕ × Option ℕ
dial_but bad n addr = if str_eq addr bad then (n, none) else (n + 1, some n)

new_pool_accounts_example :
    let out =
      new_pool (logging (dial_but (codes "h:2"))) (7, []) (new_registry strict 0) pair true 0 in
    accounted out.1 ≡ out.0.1
new_pool_accounts_example =
    new_pool_accounts (dial_but (codes "h:2")) 7 (new_registry strict 0) pair true 0

new_pool-Mirrors_example :
    Mirrors
      (ids_of pair)
      (addrs_of pair)
      (new_pool (dial_but (codes "h:9")) 7 (new_registry strict 0) pair true 0).1
new_pool-Mirrors_example =
    new_pool-Mirrors (dial_but (codes "h:9")) 7 (new_registry strict 0) pair true 0 pair-AreUsable

abbrev member : Backend
member = record {
  id = codes "a";
  addr = codes "h:1";
  weight = pos 100;
  conn = 0;
  breaker = named (codes "a");
  breaker_enabled = true;
  state = state_healthy;
}

abbrev served : Pool
served = record { backends = member ∷ []; breakers = new_registry strict 0 }

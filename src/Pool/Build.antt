-- ===== src/Pool/Build.antt =====
-- internal/pool/pool.go: `newPool`, `newBackend` and `closeConns`. Dialling is third-party code: the
-- parameter `dial`, whose state may change with each call and which fails or returns a connection.
use nw_lb_go.Base.{
  ℕ, ◌+◌, pos, leb_ℤ, Bool, true, false, if◌then◌else◌, List, [], ◌∷◌, map, snoc, Option, none,
  some, Str, str_eq,
}
use nw_lb_go.Circuit.Registry.{Registry, get}
use nw_lb_go.Config.Types.{default_weight}
use nw_lb_go.Pool.Backend.{Backend, state_unknown}
use nw_lb_go.Config.Types

-- The byID map is the list of backends itself, searched by id.
pub record Pool : Type 0 where
  pub backends : List Backend
  pub breakers : Registry

pub data BuildError : Type 0 where
  empty_id : ℕ → BuildError
  empty_addr : Str → BuildError
  duplicate_id : Str → BuildError
  dial_failed : Str → Str → BuildError

unfoldable pub has_id : Str → List Backend → Bool
has_id id [] = false
has_id id (b ∷ bs) = if str_eq b.id id then true else has_id id bs

-- A pool, or the error with the connections that `closeConns` has closed.
pub data Built : Type 0 where
  pool : Pool → Built
  failed : BuildError → List ℕ → Built

unfoldable pub conns : List Backend → List ℕ
conns bs = map (λ (b : Backend). b.conn) bs

-- The tests of `newBackend` that come before the dial.
unfoldable pub refuses : Pool → ℕ → Types.Backend → Option BuildError
unfolding has_id
refuses p i bc =
    if str_eq bc.id []
    then some (empty_id i)
    else if str_eq bc.addr []
    then some (empty_addr bc.id)
    else if has_id bc.id p.backends
    then some (duplicate_id bc.id)
    else none

-- The rest of `newBackend`, with a connection, and the append to the pool.
unfoldable pub enter : Pool → Types.Backend → Bool → ℕ → ℕ → Pool
enter p bc breaker_enabled conn now =
    let (r, h) = get p.breakers bc.id now in
    let b : Backend = record {
      id = bc.id;
      addr = bc.addr;
      weight = if leb_ℤ bc.weight (pos 0) then default_weight else bc.weight;
      conn = conn;
      breaker = h;
      breaker_enabled = breaker_enabled;
      state = state_unknown;
    } in
    record { backends = snoc p.backends b; breakers = r }

module _ {D : Type 0} (dial : D → Str → D × Option ℕ) where
  -- The loop of `newPool`, from the `i`-th backend on. `now` is the clock's reading.
  unfoldable pub new_pool_loop : D → Pool → ℕ → List Types.Backend → Bool → ℕ → D × Built
  unfolding refuses enter conns
  new_pool_loop d p i [] enabled now = (d, pool p)
  new_pool_loop d p i (bc ∷ bcs) enabled now = elim (refuses p i bc) [
    | some e ↦ (d, failed e (conns p.backends))
    | none ↦
        let (d', dialled) = dial d bc.addr in
        elim dialled [
          | none ↦ (d', failed (dial_failed bc.id bc.addr) (conns p.backends))
          | some conn ↦ new_pool_loop d' (enter p bc enabled conn now) (i + 1) bcs enabled now
        ]
  ]

  -- `breakers` is the registry with the settings of the configuration.
  unfoldable pub new_pool : D → Registry → List Types.Backend → Bool → ℕ → D × Built
  unfolding new_pool_loop
  new_pool d breakers bcs enabled now =
      new_pool_loop d (record { backends = []; breakers = breakers }) 0 bcs enabled now

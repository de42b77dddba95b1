-- ===== src/Balancer/Types.antt =====
-- internal/balancer/balancer.go: the state of a balancer, and what it asks of the pool.
use nw_lb_go.Base.{
  ℕ, ℤ, Bool, true, false, if◌then◌else◌, List, [], ◌∷◌, Option, none, some, ◌==◌, Str, str_eq,
}
use nw_lb_go.Hashring.Ring.{Ring}

-- A `*pool.Backend`: its address, by which pointers compare, and the two fields that never change.
pub record Ref : Type 0 where
  pub ptr : ℕ
  pub id : Str
  pub weight : ℤ

abbrev pub same_ref : Ref → Ref → Bool
same_ref a b = a.ptr == b.ptr

-- What the balancer sees of the pool while it picks. `S` is whatever the answers depend on: the
-- breakers, the clock, and what other goroutines do between two questions. Asking may change it.
pub record Gate : Type 1 where
  pub S : Type 0
  pub available : S → Ref → S × Bool
  pub healthy : S → Ref → S × Bool

pub record Snapshot : Type 0 where
  pub backends : List Ref
  pub by_id : List (Str × Ref)

pub record Balancer : Type 0 where
  pub ring : Ring
  pub snap : Snapshot
  pub rr : ℕ
  pub closed : Bool

pub data PickFilter : Type 0 where
  filter_available filter_healthy filter_any : PickFilter

unfoldable pub find_ref : Str → List (Str × Ref) → Option Ref
find_ref id [] = none
find_ref id ((k, b) ∷ m) = if str_eq k id then some b else find_ref id m

unfoldable pub contains_ref : List Ref → Ref → Bool
contains_ref [] b = false
contains_ref (x ∷ xs) b = if same_ref x b then true else contains_ref xs b

module _ (g : Gate) where
  unfoldable pub admits : PickFilter → g.S → Ref → g.S × Bool
  admits filter_available st b = g.available st b
  admits filter_healthy st b = g.healthy st b
  admits filter_any st b = (st, true)

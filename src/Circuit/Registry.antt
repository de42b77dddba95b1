-- ===== src/Circuit/Registry.antt =====
-- internal/circuit/circuit.go: `Registry`, the breakers by name, with one that all names share once
-- the registry is full. `sync.Map` is an association list; a breaker is reached through a handle.
pub mod Bound
use nw_lb_go.Base.{
  ℕ, ◌+◌, pos, ltb_ℤ, leb_ℤ, Bool, true, false, if◌then◌else◌, List, [], ◌∷◌, Option, none, some,
  Str, str_eq, codes,
}
use nw_lb_go.Circuit.Types.{Settings, Breaker, new_breaker}

abbrev pub default_max_entries : ℕ
default_max_entries = 1024

abbrev pub overflow_name : Str
overflow_name = codes "__overflow__"

pub record Registry : Type 0 where
  pub settings : Settings
  pub breakers : List (Str × Breaker)
  pub n : ℕ
  pub overflow : Breaker

-- Which of its breakers a registry hands out.
pub data Handle : Type 0 where
  named : Str → Handle
  overflowed : Handle

unfoldable pub new_registry : Settings → ℕ → Registry
new_registry s now =
    let t = record s {
      max_entries = if ltb_ℤ s.max_entries (pos 1) then pos default_max_entries else s.max_entries;
    } in
    record { settings = t; breakers = []; n = 0; overflow = new_breaker overflow_name t now }

unfoldable pub load : Str → List (Str × Breaker) → Option Breaker
load k [] = none
load k ((j, b) ∷ m) = if str_eq j k then some b else load k m

-- Where a call of `Get` is after its first two tests.
pub data Looked : Type 0 where
  found : Looked
  full : Looked
  missing : Looked

unfoldable pub look : Registry → Str → Looked
look r name = elim (load name r.breakers) [
  | some b ↦ found
  | none ↦ if leb_ℤ r.settings.max_entries (pos r.n) then full else missing
]

-- `LoadOrStore`: the map afterwards, and whether the name was there.
unfoldable pub load_or_store : Registry → Str → ℕ → List (Str × Breaker) × Bool
load_or_store r name now = elim (load name r.breakers) [
  | some b ↦ (r.breakers, true)
  | none ↦ ((name, new_breaker name r.settings now) ∷ r.breakers, false)
]

unfoldable pub get : Registry → Str → ℕ → Registry × Handle
unfolding look load_or_store
get r name now = elim (look r name) [
  | found ↦ (r, named name)
  | full ↦ (r, overflowed)
  | missing ↦
      let (m, loaded) = load_or_store r name now in
      (record r { breakers = m; n = if loaded then r.n else r.n + 1 }, named name)
]

-- The breaker behind a handle.
unfoldable pub resolve_handle : Registry → Handle → Option Breaker
unfolding load
resolve_handle r (named name) = load name r.breakers
resolve_handle r overflowed = some r.overflow

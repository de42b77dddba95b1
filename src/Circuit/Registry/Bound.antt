-- ===== src/Circuit/Registry/Bound.antt =====
-- internal/circuit/circuit.go: `Registry.Get`, one call at a time and under concurrent calls.
use nw_lb_go.Base.{
  ℕ, suc, ◌+◌, ◌<◌, ◌≡◌, ◌≢◌, refl, pos, pos_part, true, false, List, [], ◌∷◌, ◌++◌, none, some,
  Str, str_eq, str_eq_refl, str_eq→eq, ap, Bool-cases, length, length-append, arith, Option-cases,
  inl, inr, leb_ℤ,
}
use nw_lb_go.Circuit.Types.{Settings, Breaker, new_breaker}
use nw_lb_go.Circuit.Registry.{
  Registry, Handle, named, overflowed, new_registry, load, look, missing, load_or_store, get,
  resolve_handle,
}

module _ (r : Registry) (name : Str) (now : ℕ) where
  get_found : (c : Breaker) → load name r.breakers ≡ some c → get r name now ≡ (r, named name)
  unfolding get
  get_found c e = ground arith

  get_full :
      load name r.breakers ≡ none
      → leb_ℤ r.settings.max_entries (pos r.n) ≡ true
      → get r name now ≡ (r, overflowed)
  unfolding get
  get_full e at_cap = ground arith

  get_missing :
      load name r.breakers ≡ none
      → leb_ℤ r.settings.max_entries (pos r.n) ≡ false
      → get r name now ≡ (
        record r { breakers = (name, new_breaker name r.settings now) ∷ r.breakers; n = r.n + 1 },
        named name,
      )
  unfolding get
  get_missing e room = ground arith

load_head :
    (name : Str) (b : Breaker) (m : List (Str × Breaker)) → load name ((name, b) ∷ m) ≡ some b
unfolding load
load_head name b m = rw (str_eq_refl name)

load_other :
    (name k : Str) (b c : Breaker) (m : List (Str × Breaker))
    → load name m ≡ none
    → load k m ≡ some b
    → load k ((name, c) ∷ m) ≡ some b
unfolding load
load_other name k b c m absent e = elim (Bool-cases (str_eq name k)) [
  | inl same ↦ cc (absent, e, str_eq→eq name k same)
  | inr other ↦ rw other e
]

-- What `get-Stable` says of the registry and the handle that `Get` leaves.
abbrev pub Stable : Registry → Str → ℕ → Str → Breaker → Registry × Handle → Type 0
Stable r name later k b (s, h) =
    (get s name later ≡ (s, h))
    × (resolve_handle s h ≢ none)
    × (load k s.breakers ≡ some b)
    × (s.overflow ≡ r.overflow)

-- Asking for a name hands out a breaker that exists, and asking again hands out the same one and
-- changes nothing. The breakers of all names that were there, and the shared one, stay as they are.
pub get-Stable :
    (r : Registry) (name : Str) (now later : ℕ) (k : Str) (b : Breaker)
    → load k r.breakers ≡ some b
    → Stable r name later k b (get r name now)
unfolding resolve_handle
get-Stable r name now later k b e = elim (Option-cases (load name r.breakers)) [
  | inl absent ↦ elim (Bool-cases (leb_ℤ r.settings.max_entries (pos r.n))) [
    | inl at_cap ↦
        rw (get_full r name now absent at_cap)
          (get_full r name later absent at_cap, λ x. cc, e, refl)
    | inr room ↦
        let c = new_breaker name r.settings now in
        let there = load_head name c r.breakers in
        rw (get_missing r name now absent room) (
          get_found _ name later c there,
          λ x. cc (x, there),
          load_other name k b c r.breakers absent e,
          refl,
        )
  ]
  | inr (c, there) ↦
      rw (get_found r name now c there)
        (get_found r name later c there, λ x. cc (x, there), e, refl)
]

-- One `Get` among `threads` concurrent ones stands before its `LoadOrStore` (`pending`), or between
-- that and its `n.Add` (`uncounted`).
pub record Race : Type 0 where
  pub registry : Registry
  pub pending : List Str
  pub uncounted : ℕ

pub data RaceStep (threads : ℕ) : Race → Race → Type 0 where
  looks :
      (s : Race) (name : Str)
      → look s.registry name ≡ missing
      → length s.pending + s.uncounted < threads
      → RaceStep threads s (record s { pending = name ∷ s.pending })
  stores :
      (s t : Race) (name : Str) (now : ℕ) (front back : List Str) (m : List (Str × Breaker))
      → s.pending ≡ front ++ name ∷ back
      → load_or_store s.registry name now ≡ (m, false)
      → t ≡ record {
        registry = record (s.registry) { breakers = m };
        pending = front ++ back;
        uncounted = suc s.uncounted;
      }
      → RaceStep threads s t
  loads :
      (s t : Race) (name : Str) (now : ℕ) (front back : List Str) (m : List (Str × Breaker))
      → s.pending ≡ front ++ name ∷ back
      → load_or_store s.registry name now ≡ (m, true)
      → t ≡ record s { registry = record (s.registry) { breakers = m }; pending = front ++ back }
      → RaceStep threads s t
  counts :
      (s t : Race) (u : ℕ)
      → s.uncounted ≡ suc u
      → t ≡ record s { registry = record (s.registry) { n = s.registry.n + 1 }; uncounted = u }
      → RaceStep threads s t

pub data RaceReach (threads : ℕ) (s : Race) : Race → Type 0 where
  here : RaceReach threads s s
  next : {t u : Race} → RaceReach threads s t → RaceStep threads t u → RaceReach threads s u

record Bounded (threads max : ℕ) (s : Race) : Type 0 where
  configured : s.registry.settings.max_entries ≡ pos max
  counted : length s.registry.breakers ≡ s.registry.n + s.uncounted
  within : length s.registry.breakers + length s.pending < max + threads

RaceStep-Bounded :
    (threads max : ℕ) {s t : Race}
    → RaceStep threads s t
    → Bounded threads max s
    → Bounded threads max t
unfolding look load_or_store
RaceStep-Bounded threads max (looks s name e free) v = ground arith
RaceStep-Bounded threads max (stores s t name now front back m p e q) v =
    ground (arith, length-append front (name ∷ back), length-append front back, ap length p)
RaceStep-Bounded threads max (loads s t name now front back m p e q) v =
    ground (arith, length-append front (name ∷ back), length-append front back, ap length p)
RaceStep-Bounded threads max (counts s t u e q) v = ground arith

RaceReach-Bounded :
    (threads max : ℕ) {s t : Race}
    → RaceReach threads s t
    → Bounded threads max s
    → Bounded threads max t
RaceReach-Bounded threads max here v = v
RaceReach-Bounded threads max (next r st) v =
    RaceStep-Bounded threads max st (RaceReach-Bounded threads max r v)

unfoldable pub race : Settings → ℕ → Race
race s now = record { registry = new_registry s now; pending = []; uncounted = 0 }

-- However `threads` concurrent calls of `Get` interleave, a new registry never holds more than
-- MaxEntries + threads - 1 breakers by name (1024 for MaxEntries if that is not positive): with one
-- caller at a time the cap is exact, and otherwise it is passed by fewer than there are callers.
pub race_capped :
    (threads : ℕ) (set : Settings) (now : ℕ) (t : Race)
    → 0 < threads
    → RaceReach threads (race set now) t
    → length t.registry.breakers < pos_part (new_registry set now).settings.max_entries + threads
unfolding race new_registry
race_capped threads set now t some_caller r =
    let max = pos_part (new_registry set now).settings.max_entries in
    omega (arith, RaceReach-Bounded threads max r (ground arith))

-- ===== src/Loadgen/Affinity.antt =====
-- cmd/loadgen/stats.go: the keys that more than one backend served.
use nw_lb_go.Base.{
  ◌≡◌, Bool, false, not, ◌&&◌, ◌||◌, if◌then◌else◌, List, [], ◌∷◌, Option, none, some, Str, str_eq,
}
use nw_lb_go.Loadgen.Stats.{Sample, in_set, first_backend, Tally}

-- The backends that served a key, in order.
unfoldable pub backends_for : Str → List Sample → List Str
backends_for k [] = []
backends_for k (s ∷ ss) =
    let rest = backends_for k ss in
    if str_eq s.session_key k && not (str_eq s.backend_id []) then s.backend_id ∷ rest else rest

abbrev pub first_of : List Str → Option Str
first_of [] = none
first_of (b ∷ bs) = some b

abbrev pub any_other : Str → List Str → Bool
any_other b [] = false
any_other b (c ∷ cs) = not (str_eq b c) || any_other b cs

-- Whether they are not all the same.
abbrev pub varied : List Str → Bool
varied [] = false
varied (b ∷ bs) = any_other b bs

abbrev pub Keyed : List Str → Str → Tally → Type 0
Keyed bs k t =
    (first_backend k t.key_backend ≡ first_of bs) × (in_set k t.multi_backend ≡ varied bs)

-- A sample counts for a key if it has that key and a backend.
abbrev served : Str → Sample → Bool
served k s = str_eq s.session_key k && not (str_eq s.backend_id [])

-- ===== src/Config/Backends.antt =====
-- internal/config/config.go: `ParseBackends`.
use nw_lb_go.Base.{
  ℕ, ◌+◌, ◌≡◌, refl, Bool, true, false, if_elim, if◌then◌else◌, List, [], ◌∷◌, ◌++◌, Str, codes,
  str_eq, decimal, All, All-append, ◌⊎◌, inl, inr, arith,
}
use nw_lb_go.Config.Text.{trim_space, split_at, cut}
use nw_lb_go.Config.Types.{Backend, default_weight}

-- The position of an entry, from 1, and its text.
pub data EntryError : Type 0 where
  empty_id : ℕ → Str → EntryError
  empty_addr : ℕ → Str → EntryError

-- The entry that an id and an address give, or the error.
unfoldable pub parse_named : ℕ → Str → Str → Str → List Backend × List EntryError
parse_named i f id addr =
    if str_eq id []
    then ([], empty_id (i + 1) f ∷ [])
    else if str_eq addr []
    then ([], empty_addr (i + 1) f ∷ [])
    else (record { id = id; addr = addr; weight = default_weight } ∷ [], [])

unfoldable pub parse_cut : ℕ → Str → Str × Str × Bool → List Backend × List EntryError
unfolding parse_named trim_space
parse_cut i f (before, after, true) = parse_named i f (trim_space before) (trim_space after)
parse_cut i f (before, after, false) =
    parse_named i f (codes "backend-" ++ decimal (i + 1)) (trim_space before)

-- One round of the loop: the `i`-th field, from 0.
unfoldable pub parse_entry : ℕ → Str → List Backend × List EntryError
unfolding parse_cut trim_space
parse_entry i field =
    let f = trim_space field in if str_eq f [] then ([], []) else parse_cut i f (cut 61 f)

unfoldable pub parse_fields : ℕ → List Str → List Backend × List EntryError
parse_fields i [] = ([], [])
parse_fields i (f ∷ fs) =
    let (bs, es) = parse_entry i f in let (cs, gs) = parse_fields (i + 1) fs in (bs ++ cs, es ++ gs)

-- Any error drops the backends: the source returns nil beside it.
unfoldable pub parse_backends : Str → List Backend × List EntryError
unfolding parse_fields
parse_backends s =
    let (bs, es) = parse_fields 0 (split_at 44 s) in
    elim es [ [] ↦ (bs, []) | e ∷ rest ↦ ([], e ∷ rest) ]

-- What can be said of one parsed backend.
abbrev pub IsNamed : Backend → Type 0
IsNamed b = (str_eq b.id [] ≡ false) × (str_eq b.addr [] ≡ false) × (b.weight ≡ default_weight)

List-cases :
    (l : List EntryError)
    → (l ≡ []) ⊎ ((x : EntryError) × (rest : List EntryError) × (l ≡ x ∷ rest))
List-cases [] = inl refl
List-cases (x ∷ rest) = inr (x, rest, refl)

parse_named-IsNamed : (i : ℕ) (f id addr : Str) → All IsNamed (parse_named i f id addr).0
unfolding parse_named
parse_named-IsNamed i f id addr = ground arith

parse_cut-IsNamed : (i : ℕ) (f : Str) (c : Str × Str × Bool) → All IsNamed (parse_cut i f c).0
unfolding parse_cut
parse_cut-IsNamed i f (before, after, true) =
    parse_named-IsNamed i f (trim_space before) (trim_space after)
parse_cut-IsNamed i f (before, after, false) =
    parse_named-IsNamed i f (codes "backend-" ++ decimal (i + 1)) (trim_space before)

parse_entry-IsNamed : (i : ℕ) (f : Str) → All IsNamed (parse_entry i f).0
unfolding parse_entry
parse_entry-IsNamed i f =
    if_elim (λ (r : List Backend × List EntryError). All IsNamed (r.0)) (str_eq (trim_space f) [])
      (λ e. tt) (λ e. parse_cut-IsNamed i (trim_space f) (cut 61 (trim_space f)))

parse_fields-IsNamed : (i : ℕ) (fs : List Str) → All IsNamed (parse_fields i fs).0
unfolding parse_fields
parse_fields-IsNamed i [] = tt
parse_fields-IsNamed i (f ∷ fs) =
    All-append IsNamed (parse_entry i f).0 (parse_fields (i + 1) fs).0 (parse_entry-IsNamed i f)
      (parse_fields-IsNamed (i + 1) fs)

-- Whatever the text, `ParseBackends` returns either errors and no backend, or backends of which each
-- has an id, an address and the default weight, and no error.
pub parse_backends-IsNamed :
    (s : Str)
    → All IsNamed (parse_backends s).0 × (((parse_backends s).0 ≡ []) ⊎ ((parse_backends s).1 ≡ []))
unfolding parse_backends
parse_backends-IsNamed s =
    let named = parse_fields-IsNamed 0 (split_at 44 s) in
    elim (List-cases (parse_fields 0 (split_at 44 s)).1) [
      | inl e ↦ rw (e, parse_backends) (named, inr refl)
      | inr (x, rest, e) ↦ rw (e, parse_backends) (tt, inl refl)
    ]

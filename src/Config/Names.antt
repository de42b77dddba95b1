-- ===== src/Config/Names.antt =====
-- internal/config/config.go: the loop of `Validate` over the backends.
use nw_lb_go.Base.{
  ℕ, ◌+◌, ◌≡◌, refl, pos, leb_ℤ, false, if◌then◌else◌, List, [], ◌∷◌, ◌++◌, map, none, Str, str_eq,
  All, inl, inr, Bool-cases, Option-cases, arith,
}
use nw_lb_go.Config.Types.{Backend}
use nw_lb_go.Config.Validate.{
  Problem, id_empty, id_duplicate, addr_empty, addr_duplicate, bad_weight, first_use, check_name,
  check_backends,
}

-- No two strings of a list are the same.
abbrev pub Distinct : List Str → Type 0
Distinct [] = Unit {0}
Distinct (x ∷ xs) = All (λ y. str_eq x y ≡ false) xs × Distinct xs

abbrev pub ids_of : List Backend → List Str
ids_of = map (λ (b : Backend). b.id)

abbrev pub addrs_of : List Backend → List Str
addrs_of = map (λ (b : Backend). b.addr)

-- Names that are neither empty nor in use, and differ from each other.
abbrev pub Separate : List (Str × ℕ) → List Str → Type 0
Separate seen xs = All (λ s. (str_eq s [] ≡ false) × (first_use s seen ≡ none)) xs × Distinct xs

module _ (s : Str) (i : ℕ) (seen : List (Str × ℕ)) where
  unused :
      (x : Str)
      → first_use x ((s, i) ∷ seen) ≡ none
      → (str_eq s x ≡ false) × (first_use x seen ≡ none)
  unfolding first_use
  unused x h = elim (Bool-cases (str_eq s x)) [ inl e ↦ cc (rw e at h) | inr e ↦ (e, rw e at h) ]

  split-All :
      (xs : List Str)
      → All (λ x. (str_eq x [] ≡ false) × (first_use x ((s, i) ∷ seen) ≡ none)) xs
      → All (λ x. (str_eq x [] ≡ false) × (first_use x seen ≡ none)) xs
        × All (λ x. str_eq s x ≡ false) xs
  split-All [] a = (tt, tt)
  split-All (x ∷ xs) a =
      let u = unused x (a.0).1 in
      let rest = split-All xs a.1 in ((((a.0).0, u.1), rest.0), (u.0, rest.1))

  join-All :
      (xs : List Str)
      → All (λ x. (str_eq x [] ≡ false) × (first_use x seen ≡ none)) xs
      → All (λ x. str_eq s x ≡ false) xs
      → All (λ x. (str_eq x [] ≡ false) × (first_use x ((s, i) ∷ seen) ≡ none)) xs
  unfolding first_use
  join-All [] a d = tt
  join-All (x ∷ xs) a d = (((a.0).0, rw (d.0) ((a.0).1)), join-All xs a.1 d.1)

  cons-Separate :
      (xs : List Str)
      → str_eq s [] ≡ false
      → first_use s seen ≡ none
      → Separate ((s, i) ∷ seen) xs
      → Separate seen (s ∷ xs)
  cons-Separate xs n u p = let q = split-All xs p.0 in (((n, u), q.0), (q.1, p.1))

  Separate-tail : (xs : List Str) → Separate seen (s ∷ xs) → Separate ((s, i) ∷ seen) xs
  Separate-tail xs p = (join-All xs (p.0).1 (p.1).0, (p.1).1)

pub append-empty : (xs ys : List Problem) → xs ++ ys ≡ [] → (xs ≡ []) × (ys ≡ [])
append-empty [] ys h = (refl, h)
append-empty (x ∷ xs) ys h = cc

-- A name passes exactly if it is new and not empty, and then it is entered.
check_name-passes :
    (e : Problem) (d : ℕ → Problem) (i : ℕ) (s : Str) (seen : List (Str × ℕ))
    → (check_name e d i s seen).0 ≡ []
    → (str_eq s [] ≡ false) × (first_use s seen ≡ none)
unfolding check_name
check_name-passes e d i s seen h = elim (Bool-cases (str_eq s [])) [
  | inl empty ↦ cc (rw empty at h)
  | inr named ↦ elim (Option-cases (first_use s seen)) [
    | inl new ↦ (named, new)
    | inr (j, old) ↦ cc (rw (named, old) at h)
  ]
]

check_name-enters :
    (e : Problem) (d : ℕ → Problem) (i : ℕ) (s : Str) (seen : List (Str × ℕ))
    → str_eq s [] ≡ false
    → first_use s seen ≡ none
    → check_name e d i s seen ≡ ([], (s, i) ∷ seen)
unfolding check_name
check_name-enters e d i s seen named new = rw (named, new)

-- What the loop looks for in the backends, given the names in use.
pub record IsSound (ids addrs : List (Str × ℕ)) (bs : List Backend) : Type 0 where
  pub good_ids : Separate ids (ids_of bs)
  pub good_addrs : Separate addrs (addrs_of bs)
  pub good_weights : All (λ (b : Backend). leb_ℤ b.weight (pos 0) ≡ false) bs

pub check_backends-IsSound :
    (i : ℕ) (ids addrs : List (Str × ℕ)) (bs : List Backend)
    → check_backends i ids addrs bs ≡ []
    → IsSound ids addrs bs
unfolding check_backends
check_backends-IsSound i ids addrs [] h = record {
  good_ids = (tt, tt);
  good_addrs = (tt, tt);
  good_weights = tt;
}
check_backends-IsSound i ids addrs (b ∷ bs) h =
    let a = check_name (id_empty i) (id_duplicate i) i b.id ids in
    let c = check_name (addr_empty i) (addr_duplicate i) i b.addr addrs in
    let w = if leb_ℤ b.weight (pos 0) then bad_weight i ∷ [] else [] in
    let rest = check_backends (i + 1) a.1 c.1 bs in
    let h1 = append-empty a.0 (c.0 ++ (w ++ rest)) h in
    let h2 = append-empty c.0 (w ++ rest) h1.1 in
    let h3 = append-empty w rest h2.1 in
    let p = check_name-passes (id_empty i) (id_duplicate i) i b.id ids h1.0 in
    let q = check_name-passes (addr_empty i) (addr_duplicate i) i b.addr addrs h2.0 in
    let ea = check_name-enters (id_empty i) (id_duplicate i) i b.id ids p.0 p.1 in
    let ec = check_name-enters (addr_empty i) (addr_duplicate i) i b.addr addrs q.0 q.1 in
    let tail : check_backends (i + 1) ((b.id, i) ∷ ids) ((b.addr, i) ∷ addrs) bs ≡ [] =
      rw (ea, ec) at h3.1 in
    let t = check_backends-IsSound (i + 1) ((b.id, i) ∷ ids) ((b.addr, i) ∷ addrs) bs tail in
    record {
      good_ids = cons-Separate b.id i ids (ids_of bs) p.0 p.1 t.good_ids;
      good_addrs = cons-Separate b.addr i addrs (addrs_of bs) q.0 q.1 t.good_addrs;
      good_weights = (ground (arith, h3.0), t.good_weights);
    }

pub check_backends_of_IsSound :
    (i : ℕ) (ids addrs : List (Str × ℕ)) (bs : List Backend)
    → IsSound ids addrs bs
    → check_backends i ids addrs bs ≡ []
unfolding check_backends
check_backends_of_IsSound i ids addrs [] v = refl
check_backends_of_IsSound i ids addrs (b ∷ bs) v =
    let (n, u) = (v.good_ids.0).0 in
    let (m, w) = (v.good_addrs.0).0 in
    let ea = check_name-enters (id_empty i) (id_duplicate i) i b.id ids n u in
    let ec = check_name-enters (addr_empty i) (addr_duplicate i) i b.addr addrs m w in
    rw (ea, ec, v.good_weights.0)
      (check_backends_of_IsSound (i + 1) ((b.id, i) ∷ ids) ((b.addr, i) ∷ addrs) bs (record {
        good_ids = Separate-tail b.id i ids (ids_of bs) v.good_ids;
        good_addrs = Separate-tail b.addr i addrs (addrs_of bs) v.good_addrs;
        good_weights = v.good_weights.1;
      }))

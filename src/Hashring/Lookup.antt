-- ===== src/Hashring/Lookup.antt =====
-- internal/hashring/hashring.go: `Get` finds the first point clockwise, by binary search.
use nw_lb_go.Base.{
  ℕ, zero, suc, ◌≤◌, ◌<◌, ◌≡◌, ◌≢◌, refl, ap, ◌⊎◌, inl, inr, Bool, true, false, if◌then◌else◌, List,
  [], ◌∷◌, Str, map, arith, Bool-cases, All, length, get_or, ◌==◌, leb, Option, none, some,
  length-map,
}
use nw_lb_go.Base.Sort.{IsSorted}
use nw_lb_go.Base.Search.{search, IsMonotone, search-Splits, Splits-unique}
use nw_lb_go.Hashring.Types.{Point, Snapshot, point_lt}
use nw_lb_go.Hashring.Ring.{Ring, index, get}

abbrev pub hashes_of : List Point → List ℕ
hashes_of = map (λ (p : Point). p.hash)

abbrev pub owners_of : List Point → List Str
owners_of = map (λ (p : Point). p.owner)

-- The first point at or after `h`.
abbrev pub find_from : ℕ → List Point → Option Point
find_from h [] = none
find_from h (p ∷ ps) = let rest = find_from h ps in if leb h p.hash then some p else rest

-- The owner of position `h`: that of the first point at or after it, or else of the first of all.
abbrev pub owner_of : ℕ → List Point → Option Str
owner_of h [] = none
owner_of h (p ∷ ps) = elim (find_from h (p ∷ ps)) [ none ↦ some p.owner | some q ↦ some q.owner ]

-- How many points stand before `h`.
abbrev pub position : ℕ → List Point → ℕ
position h [] = 0
position h (p ∷ ps) = let rest = position h ps in if leb h p.hash then 0 else suc rest

abbrev at_or_after : ℕ → List Point → ℕ → Bool
at_or_after h ps i = leb h (get_or (hashes_of ps) i 0)

head_least :
    (p : Point) (ps : List Point) (j : ℕ)
    → All (λ q. point_lt q p ≡ false) ps
    → j < length ps
    → p.hash ≤ get_or (hashes_of ps) j 0
head_least p [] j a h = elim h [ ]
head_least p (q ∷ ps) zero a h = ground (arith, a.0)
head_least p (q ∷ ps) (suc j) a h = head_least p ps j a.1 (omega arith)

sorted_mono :
    (ps : List Point) (i j : ℕ)
    → IsSorted point_lt ps
    → i ≤ j
    → j < length ps
    → get_or (hashes_of ps) i 0 ≤ get_or (hashes_of ps) j 0
sorted_mono [] i j s le h = elim h [ ]
sorted_mono (p ∷ ps) zero zero s le h = omega arith
sorted_mono (p ∷ ps) zero (suc j) s le h = head_least p ps j s.0 (omega arith)
sorted_mono (p ∷ ps) (suc i) zero s le h = absurd (omega arith)
sorted_mono (p ∷ ps) (suc i) (suc j) s le h = sorted_mono ps i j s.1 (omega arith) (omega arith)

pub position-le : (h : ℕ) (ps : List Point) → position h ps ≤ length ps
position-le h [] = omega arith
position-le h (p ∷ ps) = ground (arith, position-le h ps)

position-below : (h : ℕ) (ps : List Point) (k : ℕ) → k < position h ps → at_or_after h ps k ≡ false
position-below h [] k lt = elim lt [ ]
position-below h (p ∷ ps) zero lt = ground arith
position-below h (p ∷ ps) (suc k) lt = ground (arith, position-below h ps k)

position-at :
    (h : ℕ) (ps : List Point) → position h ps < length ps → at_or_after h ps (position h ps) ≡ true
position-at h [] lt = elim lt [ ]
position-at h (p ∷ ps) lt = elim (Bool-cases (leb h p.hash)) [
  | inl e ↦ rw e e
  | inr e ↦ rw e (position-at h ps (ground arith))
]

module _ (h : ℕ) (ps : List Point) (sorted : IsSorted point_lt ps) where
  -- The binary search of `index` counts the points before `h`.
  search-position : search (length ps) (at_or_after h ps) ≡ position h ps
  search-position =
      let mono : IsMonotone (length ps) (at_or_after h ps) =
        λ i j le small e. ground (arith, sorted_mono ps i j sorted le small) in
      Splits-unique (length ps) (at_or_after h ps) _ _ (search-Splits (length ps) _ mono)
        (record { inside = position-le h ps; below = position-below h ps; at = position-at h ps })

  pub index-position :
      (s : Snapshot)
      → s.hashes ≡ hashes_of ps
      → index s h ≡ (if position h ps == length ps then 0 else position h ps)
  unfolding index
  index-position s e = rw (e, length-map ps (λ (p : Point). p.hash), search-position) refl

-- The point at the position, if there is one.
find_from-position :
    (h : ℕ) (ps : List Point)
    → ((position h ps ≡ length ps) × (find_from h ps ≡ none))
      ⊎ ((position h ps < length ps)
          × (q : Point) × (find_from h ps ≡ some q)
          × (get_or (owners_of ps) (position h ps) [] ≡ q.owner))
find_from-position h [] = inl (refl, refl)
find_from-position h (p ∷ ps) = elim (Bool-cases (leb h p.hash)) [
  | inl e ↦ rw e (inr (omega arith, p, refl, refl))
  | inr e ↦ elim (find_from-position h ps) [
    | inl (at_end, f) ↦ rw e (inl (ap suc at_end, f))
    | inr (inside, q, f, o) ↦ rw e (inr (omega arith, q, f, o))
  ]
]

owner_of-position :
    (h : ℕ) (ps : List Point)
    → length ps ≢ 0
    → owner_of h ps
      ≡ some (get_or (owners_of ps) (if position h ps == length ps then 0 else position h ps) [])
owner_of-position h [] some_point = absurd (some_point refl)
owner_of-position h (p ∷ ps) some_point = elim (find_from-position h (p ∷ ps)) [
  | inl (at_end, f) ↦ ground arith
  | inr (inside, q, f, o) ↦ ground arith
]

-- What `Get` returns for the owner that was found, if any.
abbrev pub answer : Option Str → Str × Bool
answer none = ([], false)
answer (some o) = (o, true)

-- `get` on a snapshot of sorted points is `owner_of`.
pub get-owner_of :
    (sum64 : Str → ℕ) (r : Ring) (ps : List Point) (key : Str)
    → IsSorted point_lt ps
    → r.snap.hashes ≡ hashes_of ps
    → r.snap.owners ≡ owners_of ps
    → get sum64 r key ≡ answer (owner_of (sum64 key) ps)
unfolding get
get-owner_of sum64 r [] key s eh eo = rw eh refl
get-owner_of sum64 r (p ∷ ps) key s eh eo =
    rw
      (
        index-position (sum64 key) (p ∷ ps) s r.snap eh,
        eh,
        eo,
        owner_of-position (sum64 key) (p ∷ ps) (λ e. cc),
      )
      (ground arith)

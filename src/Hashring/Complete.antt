-- ===== src/Hashring/Complete.antt =====
-- internal/hashring/hashring.go: `GetN` returns as many distinct members as it is asked for, or all.
use nw_lb_go.Base.{
  ℕ, zero, suc, ◌+◌, ◌-◌, ◌%◌, ◌≤◌, ◌<◌, ◌≡◌, refl, ◌∙◌, ap, inl, inr, true, false, if◌then◌else◌,
  List, [], ◌∷◌, ◌++◌, Str, ℤ, str_eq, str_eq→eq, str_eq_refl, str_eq_symm, str_lt, arith,
  Bool-cases, length, ◌==◌, snoc, get_or, All, All-snoc, map,
}
use mathlib.Core.List.{map-append}
use native.Mathlib.Nat.{mod-eq_of_lt, mod-lt, mod-eq-sub-mod}
use native.Mathlib.Decide.{dec_lt}
use nw_lb_go.Base.Sort.{sort_by, insert_by, IsSorted}
use nw_lb_go.Hashring.Types.{
  Member, Point, Snapshot, vnode_count, points_of, points, sorted_points, point_lt, point_at,
}
use nw_lb_go.Hashring.Ring.{contains, get_n_loop, index}
use nw_lb_go.Hashring.Members.{Ascending, lt-ne}
use nw_lb_go.Hashring.Lookup.{owners_of, hashes_of, position-le, index-position}
use nw_lb_go.Hashring.Preference.{Unique}

-- The first occurrence of `s` taken out.
drop_one : Str → List Str → List Str
drop_one s [] = []
drop_one s (x ∷ xs) = let rest = drop_one s xs in if str_eq x s then xs else x ∷ rest

length-drop_one :
    (s : Str) (xs : List Str) → contains xs s ≡ true → suc (length (drop_one s xs)) ≡ length xs
unfolding drop_one contains
length-drop_one s [] h = cc
length-drop_one s (x ∷ xs) h = ground (arith, length-drop_one s xs)

contains-drop_one :
    (s t : Str) (xs : List Str)
    → contains xs t ≡ true
    → str_eq s t ≡ false
    → contains (drop_one s xs) t ≡ true
unfolding drop_one contains
contains-drop_one s t [] h n = cc
contains-drop_one s t (x ∷ xs) h n = elim (Bool-cases (str_eq x s)) [
  | inl e ↦ rw e (other (str_eq→eq x s e))
  | inr e ↦ rw e (ground (arith, contains-drop_one s t xs))
]
  where
    other : x ≡ s → contains xs t ≡ true
    other e = ground (arith, ap (λ y. str_eq y t) e)

-- A list without repetition is no longer than one that holds all of it.
pub length-le_of_contained :
    (xs ys : List Str) → Unique xs → All (λ x. contains ys x ≡ true) xs → length xs ≤ length ys
unfolding contains
length-le_of_contained [] ys u a = omega arith
length-le_of_contained (x ∷ xs) ys u a = omega (
  arith,
  length-drop_one x ys a.0,
  length-le_of_contained xs (drop_one x ys) u.1 (still xs u.0 a.1),
)
  where
    still :
        (l : List Str)
        → contains l x ≡ false
        → All (λ z. contains ys z ≡ true) l
        → All (λ z. contains (drop_one x ys) z ≡ true) l
    still [] h b = tt
    still (z ∷ l) h b =
        let apart : str_eq z x ≡ false = ground arith in
        (contains-drop_one x z ys b.0 (str_eq_symm z x apart), still l (ground arith) b.1)

-- From `start`, some round of a full lap stands at each position.
pub lap_reaches : (start p n : ℕ) → start < n → p < n → (j : ℕ) × (j < n) × ((start + j) % n ≡ p)
lap_reaches start p n a b = elim (dec_lt p start) [
  | yes before ↦ (p + n - start, omega arith, rw wraps (shifted p b))
  | no after ↦ (p - start, omega arith, rw (exact (omega arith)) (mod-eq_of_lt b))
]
  where
    wraps : start + (p + n - start) ≡ p + n
    wraps = omega arith

    exact : start ≤ p → start + (p - start) ≡ p
    exact h = omega arith

    shifted : (q : ℕ) → q < n → (q + n) % n ≡ q
    shifted q h = grind (arith, mod-eq-sub-mod, mod-eq_of_lt)

pub owner_listed :
    (os : List Str) (s : Str)
    → contains os s ≡ true
    → (p : ℕ) × (p < length os) × (get_or os p [] ≡ s)
unfolding contains
owner_listed [] s h = cc
owner_listed (o ∷ os) s h = elim (Bool-cases (str_eq o s)) [
  | inl e ↦ (0, omega arith, str_eq→eq o s e)
  | inr e ↦ let (p, small, is) = owner_listed os s (ground arith) in (suc p, omega arith, is)
]

pub contains_append-left :
    (xs ys : List Str) (s : Str) → contains xs s ≡ true → contains (xs ++ ys) s ≡ true
unfolding contains
contains_append-left [] ys s h = cc
contains_append-left (x ∷ xs) ys s h = ground (arith, contains_append-left xs ys s)

pub contains_append-right :
    (xs ys : List Str) (s : Str) → contains ys s ≡ true → contains (xs ++ ys) s ≡ true
unfolding contains
contains_append-right [] ys s h = h
contains_append-right (x ∷ xs) ys s h = ground (arith, contains_append-right xs ys s h)

contains-insert_by :
    (x : Point) (l : List Point) (s : Str)
    → contains (owners_of (insert_by point_lt x l)) s ≡ contains (owners_of (x ∷ l)) s
unfolding contains insert_by
contains-insert_by x [] s = refl
contains-insert_by x (y ∷ l) s = ground (arith, contains-insert_by x l s)

contains-sort_by :
    (l : List Point) (s : Str)
    → contains (owners_of (sort_by point_lt l)) s ≡ contains (owners_of l) s
unfolding contains sort_by
contains-sort_by [] s = refl
contains-sort_by (x ∷ l) s =
    contains-insert_by x (sort_by point_lt l) s ∙ ground (arith, contains-sort_by l s)

pub vnode_count_pos : (virtual_nodes weight : ℤ) → 0 < vnode_count virtual_nodes weight
unfolding vnode_count
vnode_count_pos virtual_nodes weight = ground arith

module _ (sum64 : Str → ℕ) (vn : ℤ) where
  points_of-owner :
      (id : Str) (i k : ℕ) → 0 < k → contains (owners_of (points_of sum64 id i k)) id ≡ true
  unfolding points_of point_at contains
  points_of-owner id i zero h = elim h [ ]
  points_of-owner id i (suc k) h = rw (str_eq_refl id)

  points-owner :
      (ms : List Member)
      → All (λ (m : Member). contains (owners_of (points sum64 vn ms)) m.id ≡ true) ms
  points-owner [] = tt
  points-owner (m ∷ ms) =
      let k = vnode_count vn m.weight in
      let own = points_of sum64 m.id 0 k in
      let joined : owners_of (points sum64 vn (m ∷ ms))
          ≡ owners_of own ++ owners_of (points sum64 vn ms) =
        (unfold points in map-append (λ (p : Point). p.owner) own (points sum64 vn ms)) in
      (
        rw joined (
            contains_append-left (owners_of own) _ m.id
              (points_of-owner m.id 0 k (vnode_count_pos vn m.weight))),
        others (owners_of own) joined ms (points-owner ms),
      )
    where
      others :
          (os : List Str)
          → owners_of (points sum64 vn (m ∷ ms)) ≡ os ++ owners_of (points sum64 vn ms)
          → (l : List Member)
          → All (λ (x : Member). contains (owners_of (points sum64 vn ms)) x.id ≡ true) l
          → All (λ (x : Member). contains (owners_of (points sum64 vn (m ∷ ms))) x.id ≡ true) l
      others os e [] h = tt
      others os e (x ∷ l) h = (rw e (contains_append-right os _ x.id h.0), others os e l h.1)

  -- Every member owns a point.
  pub sorted_points-owner :
      (ms : List Member)
      → All (λ (m : Member). contains (owners_of (sorted_points sum64 vn ms)) m.id ≡ true) ms
  unfolding sorted_points
  sorted_points-owner ms = resorted ms (points-owner ms)
    where
      resorted :
          (l : List Member)
          → All (λ (m : Member). contains (owners_of (points sum64 vn ms)) m.id ≡ true) l
          → All (λ (m : Member). contains (owners_of (sorted_points sum64 vn ms)) m.id ≡ true) l
      resorted [] h = tt
      resorted (x ∷ l) h = (contains-sort_by (points sum64 vn ms) x.id ∙ h.0, resorted l h.1)

-- The ids of a list of members.
abbrev pub ids : List Member → List Str
ids = map (λ (m : Member). m.id)

pub ids-Unique : (ms : List Member) → Ascending ms → Unique (ids ms)
unfolding contains
ids-Unique [] a = tt
ids-Unique (m ∷ ms) a = (unlisted ms a.0, ids-Unique ms a.1)
  where
    unlisted :
        (l : List Member)
        → All (λ (x : Member). str_lt m.id x.id ≡ true) l
        → contains (ids l) m.id ≡ false
    unlisted [] h = refl
    unlisted (x ∷ l) h = ground (arith, unlisted l h.1, str_eq_symm m.id x.id (lt-ne m.id x.id h.0))

pub index-lt :
    (s : Snapshot) (ps : List Point) (h : ℕ)
    → IsSorted point_lt ps
    → s.hashes ≡ hashes_of ps
    → 0 < length ps
    → index s h < length ps
index-lt s ps h sorted e some_point =
    let le = position-le h ps in rw (index-position h ps sorted s e) (ground arith)

-- The owners that a walk collects have any property that all owners have.
module _ {κ} (P : Str → Type κ) (s : Snapshot) (n start : ℕ) where
  get_or-All : (os : List Str) (i : ℕ) → All P os → i < length os → P (get_or os i [])
  get_or-All [] i a h = elim h [ ]
  get_or-All (o ∷ os) zero a h = a.0
  get_or-All (o ∷ os) (suc i) a h = get_or-All os i a.1 (omega arith)

  pub get_n_loop-All :
      (k i : ℕ) (out : List Str)
      → All P s.owners
      → 0 < length s.hashes
      → length s.owners ≡ length s.hashes
      → All P out
      → All P (get_n_loop s n start k i out)
  unfolding get_n_loop
  get_n_loop-All zero i out a some_point same h = h
  get_n_loop-All (suc k) i out a some_point same h =
      let owner = get_or s.owners ((start + i) % length s.hashes) [] in
      let held : P owner =
        get_or-All s.owners ((start + i) % length s.hashes) a
          (rw same (mod-lt (start + i) some_point)) in
      elim (Bool-cases (contains out owner)) [
        | inl old ↦ rw old (get_n_loop-All k (i + 1) out a some_point same h)
        | inr new ↦ elim (Bool-cases (length (snoc out owner) == n)) [
          | inl full ↦ rw (new, full) (All-snoc P out owner h held)
          | inr room ↦
              rw (new, room)
                (get_n_loop-All k (i + 1) (snoc out owner) a some_point same
                  (All-snoc P out owner h held))
        ]
      ]

-- ===== src/Hashring/GetN.antt =====
-- internal/hashring/hashring.go: the contract of `GetN`.
use Prim.Native.Nat.{min}
use nw_lb_go.Base.{
  ℕ, zero, suc, ◌+◌, ◌%◌, ◌≤◌, ◌<◌, ◌≡◌, refl, ◌∙◌, ap, ◌⊎◌, inl, inr, true, false, List, [], ◌∷◌,
  Str, ℤ, str_eq_refl, All-append, arith, Bool-cases, length, ◌==◌, ==_iff, get_or, All, length-map,
  pos, pos_part, leb_ℤ,
}
use nw_lb_go.Base.Sort.{sort_by, sort_by-All, sort_by-IsSorted}
use nw_lb_go.Hashring.Types.{
  Member, Point, Snapshot, vnode_count, points_of, points, sorted_points, point_lt, point_at,
}
use nw_lb_go.Hashring.Ring.{Ring, contains, get_n_loop, get_n, index}
use nw_lb_go.Hashring.Members.{point_lt-IsOrder}
use nw_lb_go.Hashring.Lookup.{owners_of, hashes_of}
use nw_lb_go.Hashring.Stability.{IsBuilt}
use nw_lb_go.Hashring.Preference.{Unique, Walked, get_n_loop-Walked}
use nw_lb_go.Hashring.Complete.{
  ids, ids-Unique, sorted_points-owner, length-le_of_contained, lap_reaches, owner_listed, index-lt,
  get_n_loop-All,
}

-- A full lap with room for `n` owners, `n` at most the number of members, collects `n`.
lap_fills :
    (s : Snapshot) (n start : ℕ) (xs : List Str)
    → Unique xs
    → All (λ x. contains s.owners x ≡ true) xs
    → n ≤ length xs
    → start < length s.hashes
    → length s.owners ≡ length s.hashes
    → 0 < n
    → length (get_n_loop s n start (length s.hashes) 0 []) ≡ n
lap_fills s n start xs u owned le here same pos_n =
    let res = get_n_loop s n start (length s.hashes) 0 [] in
    let w = get_n_loop-Walked s n start (length s.hashes) 0 [] tt pos_n in
    elim (Bool-cases (length res == n)) [
      | inl full ↦ (==_iff (length res) n).0 full
      | inr short ↦
          omega (arith, w.bounded, length-le_of_contained xs res u (collected w short xs owned))
    ]
  where
    collected :
        Walked s n start (length s.hashes) 0 [] (get_n_loop s n start (length s.hashes) 0 [])
        → (length (get_n_loop s n start (length s.hashes) 0 []) == n) ≡ false
        → (l : List Str) → All (λ x. contains s.owners x ≡ true) l
        → All (λ x. contains (get_n_loop s n start (length s.hashes) 0 []) x ≡ true) l
    collected w short [] h = tt
    collected w short (x ∷ l) h =
        let (p, small, is) = owner_listed s.owners x h.0 in
        let (j, round, reach) = lap_reaches start p (length s.hashes) here (rw (← same) small) in
        (
          at_round x p j is reach (w.complete j (omega arith) (omega arith)) short,
          collected w short l h.1,
        )
      where
        at_round :
            (x : Str) (p j : ℕ)
            → get_or s.owners p [] ≡ x
            → (start + j) % length s.hashes ≡ p
            → (length (get_n_loop s n start (length s.hashes) 0 []) ≡ n)
              ⊎ (contains
                    (get_n_loop s n start (length s.hashes) 0 [])
                    (get_or s.owners ((start + j) % length s.hashes) [])
                  ≡ true)
            → (length (get_n_loop s n start (length s.hashes) 0 []) == n) ≡ false
            → contains (get_n_loop s n start (length s.hashes) 0 []) x ≡ true
        at_round x p j is reach (inl e) no_n = absurd (ground arith)
        at_round x p j is reach (inr c) no_n = rw (← is, ← reach) c

-- The owners of points are members.
points-ids :
    (sum64 : Str → ℕ) (vn : ℤ) (ms all : List Member)
    → All (λ (m : Member). contains (ids all) m.id ≡ true) ms
    → All (λ (p : Point). contains (ids all) p.owner ≡ true) (points sum64 vn ms)
unfolding points points_of point_at
points-ids sum64 vn [] all h = tt
points-ids sum64 vn (m ∷ ms) all h =
    All-append (λ (p : Point). contains (ids all) p.owner ≡ true) (points_of sum64 m.id 0 _) _
      (own m.id h.0 0 (vnode_count vn m.weight)) (points-ids sum64 vn ms all h.1)
  where
    own :
        (id : Str)
        → contains (ids all) id ≡ true
        → (i k : ℕ)
        → All (λ (p : Point). contains (ids all) p.owner ≡ true) (points_of sum64 id i k)
    own id c i zero = tt
    own id c i (suc k) = (c, own id c (i + 1) k)

ids_listed : (ms : List Member) → All (λ (m : Member). contains (ids ms) m.id ≡ true) ms
unfolding contains
ids_listed [] = tt
ids_listed (m ∷ ms) = (rw (str_eq_refl m.id), deeper ms (ids_listed ms))
  where
    deeper :
        (l : List Member)
        → All (λ (x : Member). contains (ids ms) x.id ≡ true) l
        → All (λ (x : Member). contains (ids (m ∷ ms)) x.id ≡ true) l
    deeper [] h = tt
    deeper (x ∷ l) h = (ground (arith, h.0), deeper l h.1)

owners-All :
    (P : Str → Type 0) (ps : List Point) → All (λ (p : Point). P p.owner) ps → All P (owners_of ps)
owners-All P [] h = tt
owners-All P (p ∷ ps) h = (h.0, owners-All P ps h.1)

ids-All : (P : Str → Type 0) (ms : List Member) → All (λ (m : Member). P m.id) ms → All P (ids ms)
ids-All P [] h = tt
ids-All P (m ∷ ms) h = (h.0, ids-All P ms h.1)

-- What `GetN` promises about a list of owners.
abbrev pub IsPreference : List Member → ℤ → List Str → Type 0
IsPreference ms n res =
    Unique res
    × All (λ o. contains (ids ms) o ≡ true) res
    × (length res ≡ min (pos_part n) (length ms))

no_points :
    (sum64 : Str → ℕ) (vn : ℤ) (ms : List Member)
    → length (sorted_points sum64 vn ms) ≡ 0
    → length ms ≡ 0
no_points sum64 vn [] e = refl
no_points sum64 vn (m ∷ ms) e =
    let (p, small, is) =
      owner_listed (owners_of (sorted_points sum64 vn (m ∷ ms))) m.id
        (sorted_points-owner sum64 vn (m ∷ ms)).0 in
    absurd (omega (arith, length-map (sorted_points sum64 vn (m ∷ ms)) (λ (p : Point). p.owner)))

some_member :
    (sum64 : Str → ℕ) (vn : ℤ) (ms : List Member)
    → 0 < length (sorted_points sum64 vn ms)
    → 0 < length ms
unfolding sorted_points points sort_by
some_member sum64 vn [] h = elim h [ ]
some_member sum64 vn (m ∷ ms) h = omega arith

module _ (sum64 : Str → ℕ) (r : Ring) (key : Str) (b : IsBuilt sum64 r) where
  abbrev ms : List Member
  ms = r.snap.members

  abbrev ps : List Point
  ps = sorted_points sum64 r.virtual_nodes r.snap.members

  hashes_eq : r.snap.hashes ≡ hashes_of ps
  hashes_eq = ap (λ (s : Snapshot). s.hashes) b.published

  owners_eq : r.snap.owners ≡ owners_of ps
  owners_eq = ap (λ (s : Snapshot). s.owners) b.published

  lengths_eq : (length r.snap.hashes ≡ length ps) × (length r.snap.owners ≡ length ps)
  lengths_eq = (
    ap length hashes_eq ∙ length-map ps (λ (p : Point). p.hash),
    ap length owners_eq ∙ length-map ps (λ (p : Point). p.owner),
  )

  owners-All-ids : All (λ o. contains (ids r.snap.members) o ≡ true) r.snap.owners
  unfolding sorted_points
  owners-All-ids = rw owners_eq (
      owners-All (λ o. contains (ids ms) o ≡ true) ps
        (sort_by-All (λ (p : Point). contains (ids ms) p.owner ≡ true) point_lt
          (points sum64 r.virtual_nodes ms)
          (points-ids sum64 r.virtual_nodes ms ms (ids_listed ms))))

  start-lt : 0 < length r.snap.hashes → index r.snap (sum64 key) < length r.snap.hashes
  unfolding sorted_points
  start-lt h = rw (lengths_eq.0) (
      index-lt r.snap ps (sum64 key)
        (sort_by-IsSorted point_lt point_lt-IsOrder (points sum64 r.virtual_nodes ms)) hashes_eq
        (omega (arith, lengths_eq)))

  -- The walk that `GetN` makes, for `m` owners.
  lap-IsPreference :
      (n : ℤ) (m : ℕ)
      → m ≡ min (pos_part n) (length ms)
      → 0 < m
      → 0 < length r.snap.hashes
      → IsPreference ms n
          (get_n_loop r.snap m (index r.snap (sum64 key)) (length r.snap.hashes) 0 [])
  lap-IsPreference n m e pos_m some_point =
      let start = index r.snap (sum64 key) in
      let k = length r.snap.hashes in
      let same : length r.snap.owners ≡ k = omega (arith, lengths_eq) in
      let owned =
        ids-All (λ o. contains (owners_of ps) o ≡ true) ms
          (sorted_points-owner sum64 r.virtual_nodes ms) in
      (
        (get_n_loop-Walked r.snap m start k 0 [] tt pos_m).unique,
        get_n_loop-All (λ o. contains (ids ms) o ≡ true) r.snap m start k 0 [] owners-All-ids
            some_point same tt,
        lap_fills r.snap m start (ids ms) (ids-Unique ms b.ascending) (rw owners_eq owned)
              (omega (arith, length-map ms (λ (x : Member). x.id))) (start-lt some_point) same pos_m
            ∙ e,
      )

  -- `GetN` returns distinct members, `n` of them or all if there are fewer, and none if `n` is not
  -- positive, whatever the hash function and the key.
  pub get_n-IsPreference : (n : ℤ) → IsPreference r.snap.members n (get_n sum64 r key n)
  unfolding get_n
  get_n-IsPreference n = elim (Bool-cases (leb_ℤ n (pos 0))) [
    | inl none_asked ↦ rw none_asked (tt, tt, ground arith)
    | inr asked ↦ elim (Bool-cases (length r.snap.hashes == 0)) [
      | inl no_hash ↦
          let empty : length ms ≡ 0 =
            no_points sum64 r.virtual_nodes ms (ground (arith, lengths_eq)) in
          rw (asked, no_hash) (tt, tt, omega (arith, empty))
      | inr some_hash ↦
          rw (asked, some_hash)
            (lap-IsPreference n _ (ground arith)
              (ground (arith, pos_ms (ground (arith, lengths_eq)))) (ground arith))
    ]
  ]
    where
      pos_ms : 0 < length ps → 0 < length ms
      pos_ms = some_member sum64 r.virtual_nodes ms

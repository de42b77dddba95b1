-- ===== src/Hashring/Stability.antt =====
-- internal/hashring/hashring.go: consistent hashing. A change of one member moves only the keys
-- that this member loses or wins.
use nw_lb_go.Base.{
  ℕ, ◌≡◌, refl, sym, ◌∙◌, ap, inl, inr, Bool, true, false, not, List, [], ◌∷◌, Str, ℤ, str_eq,
  arith, Bool-cases, length, ◌==◌, Option-cases, Option, none, some, All, snoc,
}
use nw_lb_go.Base.Sort.{keep, sort_by-IsSorted, keep_of_All}
use nw_lb_go.Hashring.Types.{
  Member, Point, Snapshot, build, snapshot_of, sorted_points, points, point_lt,
}
use nw_lb_go.Hashring.Ring.{Ring, new, set, add, remove, get}
use nw_lb_go.Hashring.Members.{
  Ascending, normal, normal-Ascending, normal_of_Ascending, keep-Ascending, point_lt-IsOrder,
  without-added,
}
use nw_lb_go.Hashring.Build.{without, build_lem, keep-sorted_points}
use nw_lb_go.Hashring.Lookup.{find_from, owner_of, answer, get-owner_of}

-- The published snapshot is the one that the members, in the order of their ids, give.
pub record IsBuilt (sum64 : Str → ℕ) (r : Ring) : Type 0 where
  pub ascending : Ascending r.snap.members
  pub published : r.snap ≡ snapshot_of sum64 r.virtual_nodes r.snap.members

module _ (sum64 : Str → ℕ) where
  pub build-IsBuilt :
      (virtual_nodes : ℤ) (ms : List Member)
      → IsBuilt sum64
          (record { virtual_nodes = virtual_nodes; snap = build sum64 virtual_nodes ms })
  build-IsBuilt virtual_nodes ms =
      rw (build_lem sum64 virtual_nodes ms)
        (record { ascending = normal-Ascending ms; published = refl })

  -- Every method that writes a ring publishes the snapshot of its members, sorted by id and with no
  -- id twice.
  pub writes-IsBuilt :
      (virtual_nodes : ℤ) (ms : List Member) (r : Ring) (m : Member) (id : Str)
      → IsBuilt sum64 r
      → IsBuilt sum64 (new sum64 virtual_nodes ms)
        × IsBuilt sum64 (set sum64 r ms)
        × IsBuilt sum64 (add sum64 r m)
        × IsBuilt sum64 (remove sum64 r id)
  unfolding new set add remove
  writes-IsBuilt virtual_nodes ms r m id b = (
    build-IsBuilt virtual_nodes ms,
    build-IsBuilt r.virtual_nodes ms,
    build-IsBuilt r.virtual_nodes (snoc r.snap.members m),
    ground (arith, build-IsBuilt r.virtual_nodes (without id r.snap.members), b),
  )

  -- A lookup, through the sorted points of the members.
  pub get-IsBuilt :
      (r : Ring) (key : Str)
      → IsBuilt sum64 r
      → get sum64 r key
        ≡ answer (owner_of (sum64 key) (sorted_points sum64 r.virtual_nodes r.snap.members))
  get-IsBuilt r key b =
      get-owner_of sum64 r (sorted_points sum64 r.virtual_nodes r.snap.members) key
        (unfold sorted_points in
          sort_by-IsSorted point_lt point_lt-IsOrder (points sum64 r.virtual_nodes r.snap.members))
        (ap (λ (s : Snapshot). s.hashes) b.published) (ap (λ (s : Snapshot). s.owners) b.published)

find_from-keep :
    (h : ℕ) (p : Point → Bool) (ps : List Point)
    → (find_from h ps ≡ none → find_from h (keep p ps) ≡ none)
      × ((q : Point) → find_from h ps ≡ some q → p q ≡ true → find_from h (keep p ps) ≡ some q)
unfolding keep
find_from-keep h p [] = (λ e. e, λ q e t. e)
find_from-keep h p (x ∷ ps) =
    let (gone, there) = find_from-keep h p ps in
    (λ e. ground (arith, gone), λ q e t. ground (arith, there q))

owner_of-found :
    (h : ℕ) (ps : List Point) (q : Point) → find_from h ps ≡ some q → owner_of h ps ≡ some q.owner
owner_of-found h [] q e = cc
owner_of-found h (p ∷ ps) q e = ground arith

owner_of-first :
    (h : ℕ) (p : Point) (ps : List Point)
    → find_from h (p ∷ ps) ≡ none
    → owner_of h (p ∷ ps) ≡ some p.owner
owner_of-first h p ps e = ground arith

keep-cons :
    (id : Str) (p : Point) (ps : List Point)
    → str_eq p.owner id ≡ false
    → keep (λ (x : Point). not (str_eq x.owner id)) (p ∷ ps)
      ≡ p ∷ keep (λ (x : Point). not (str_eq x.owner id)) ps
unfolding keep
keep-cons id p ps e = rw e

-- What stays with its owner when another owner's points go.
owner_of-keep :
    (h : ℕ) (id o : Str) (ps : List Point)
    → owner_of h ps ≡ some o
    → str_eq o id ≡ false
    → owner_of h (keep (λ (p : Point). not (str_eq p.owner id)) ps) ≡ some o
owner_of-keep h id o [] e n = cc
owner_of-keep h id o (p ∷ ps) e n =
    let other = λ (x : Point). not (str_eq x.owner id) in
    let (gone, there) = find_from-keep h other (p ∷ ps) in
    elim (Option-cases (find_from h (p ∷ ps))) [
      | inl f ↦
          let same : p.owner ≡ o = cc (e, owner_of-first h p ps f) in
          let apart : str_eq p.owner id ≡ false = rw same n in
          let still = gone f in
          rw (keep-cons id p ps apart) (
            owner_of-first h p (keep other ps) (rw (keep-cons id p ps apart) at still)
            ∙ ap some same)
      | inr (q, f) ↦
          let same : q.owner ≡ o = cc (e, owner_of-found h (p ∷ ps) q f) in
          owner_of-found h (keep other (p ∷ ps)) q (there q f (rw (same, n))) ∙ ap some same
    ]

get-owner :
    (sum64 : Str → ℕ) (r : Ring) (key o : Str)
    → IsBuilt sum64 r
    → get sum64 r key ≡ (o, true)
    → owner_of (sum64 key) (sorted_points sum64 r.virtual_nodes r.snap.members) ≡ some o
get-owner sum64 r key o b e =
    answered (owner_of (sum64 key) (sorted_points sum64 r.virtual_nodes r.snap.members))
      (sym (get-IsBuilt sum64 r key b) ∙ e)
  where
    answered : (a : Option Str) → answer a ≡ (o, true) → a ≡ some o
    answered none h = cc
    answered (some q) h = cc

-- The ring that `Remove` leaves looks a key up among the points that the id does not own.
get-without :
    (sum64 : Str → ℕ) (r : Ring) (id key : Str)
    → IsBuilt sum64 r
    → get sum64 (record r { snap = build sum64 r.virtual_nodes (without id r.snap.members) }) key
      ≡ answer (
          owner_of (sum64 key) (
            keep
              (λ (p : Point). not (str_eq p.owner id))
              (sorted_points sum64 r.virtual_nodes r.snap.members)))
get-without sum64 r id key b =
    let ms = without id r.snap.members in
    let s = record r { snap = build sum64 r.virtual_nodes ms } in
    let same : s.snap.members ≡ ms =
      ap (λ (t : Snapshot). t.members) (build_lem sum64 r.virtual_nodes ms)
      ∙ normal_of_Ascending ms (keep-Ascending _ r.snap.members b.ascending) in
    get-IsBuilt sum64 s key (build-IsBuilt sum64 r.virtual_nodes ms)
    ∙ ap (λ l. answer (owner_of (sum64 key) (sorted_points sum64 r.virtual_nodes l))) same
    ∙ ap (λ l. answer (owner_of (sum64 key) l))
        (sym (keep-sorted_points sum64 r.virtual_nodes id r.snap.members))

remove_unknown :
    (sum64 : Str → ℕ) (r : Ring) (id : Str)
    → (length (without id r.snap.members) == length r.snap.members) ≡ true
    → remove sum64 r id ≡ r
unfolding remove
remove_unknown sum64 r id e = rw e

remove_known :
    (sum64 : Str → ℕ) (r : Ring) (id : Str)
    → (length (without id r.snap.members) == length r.snap.members) ≡ false
    → remove sum64 r id
      ≡ record r { snap = build sum64 r.virtual_nodes (without id r.snap.members) }
unfolding remove
remove_known sum64 r id e = rw e

-- Removing a member moves no key of another member: a key that has an owner other than the removed
-- id still has that owner afterwards, for any hash function and whether or not the id is a member.
pub get-remove :
    (sum64 : Str → ℕ) (r : Ring) (id key o : Str)
    → IsBuilt sum64 r
    → get sum64 r key ≡ (o, true)
    → str_eq o id ≡ false
    → get sum64 (remove sum64 r id) key ≡ (o, true)
get-remove sum64 r id key o b e n =
    elim (Bool-cases (length (without id r.snap.members) == length r.snap.members)) [
      | inl unknown ↦ rw (remove_unknown sum64 r id unknown) e
      | inr known ↦ rw (remove_known sum64 r id known) (
          get-without sum64 r id key b
          ∙ ap answer (
              owner_of-keep (sum64 key) id o (sorted_points sum64 r.virtual_nodes r.snap.members)
                (get-owner sum64 r key o b e) n))
    ]

-- Adding a member wins keys for itself only: a key that goes to another member in the larger ring
-- went to that member before.
pub get-add :
    (sum64 : Str → ℕ) (r : Ring) (m : Member) (key o : Str)
    → IsBuilt sum64 r
    → All (λ (x : Member). str_eq x.id m.id ≡ false) r.snap.members
    → get sum64 (add sum64 r m) key ≡ (o, true)
    → str_eq o m.id ≡ false
    → get sum64 r key ≡ (o, true)
unfolding add
get-add sum64 r m key o b fresh e n =
    let vn = r.virtual_nodes in
    let ms = r.snap.members in
    let s = record r { snap = build sum64 vn (snoc ms m) } in
    let grown = build-IsBuilt sum64 vn (snoc ms m) in
    let members_eq : s.snap.members ≡ normal (snoc ms m) =
      ap (λ (t : Snapshot). t.members) (build_lem sum64 vn (snoc ms m)) in
    let others : without m.id s.snap.members ≡ ms =
      ap (without m.id) members_eq ∙ without-added m ms b.ascending ∙ none_dropped in
    let kept =
      owner_of-keep (sum64 key) m.id o (sorted_points sum64 vn s.snap.members)
        (get-owner sum64 s key o grown e) n in
    get-IsBuilt sum64 r key b
    ∙ ap answer (
        ap (λ l. owner_of (sum64 key) (sorted_points sum64 vn l)) (sym others)
        ∙ ap (owner_of (sum64 key)) (sym (keep-sorted_points sum64 vn m.id s.snap.members))
        ∙ kept)
  where
    none_dropped : without m.id r.snap.members ≡ r.snap.members
    none_dropped =
        keep_of_All (λ (x : Member). not (str_eq x.id m.id)) r.snap.members
          (passes r.snap.members fresh)
      where
        passes :
            (l : List Member)
            → All (λ (x : Member). str_eq x.id m.id ≡ false) l
            → All (λ (x : Member). not (str_eq x.id m.id) ≡ true) l
        passes [] h = tt
        passes (x ∷ l) h = (rw (h.0) refl, passes l h.1)

-- ===== src/Balancer/Rebuilt.antt =====
-- internal/balancer/balancer.go, `Rebuild`: the snapshot that it publishes suits `Pick`.
use nw_lb_go.Base.{
  if_elim, ℤ, pos, leb_ℤ, if◌then◌else◌, ℕ, ◌≡◌, refl, ◌⊎◌, inl, inr, true, false, List, [], ◌∷◌,
  ◌||◌, Bool-cases, Str, str_eq, All, arith,
}
use nw_lb_go.Base.{◌∙◌, map, some, str_eq_refl, str_eq_symm, str_eq→eq}
use nw_lb_go.Balancer.Types.{Ref, Balancer, contains_ref, find_ref}
use nw_lb_go.Balancer.Pick.{same_membership, put_ref, index_refs, rebuild, new_balancer, member_of}
use nw_lb_go.Hashring.Ring.{new, set}
use nw_lb_go.Hashring.Types.{build}
use nw_lb_go.Balancer.Collect.{UniqueRefs}
use nw_lb_go.Balancer.Safety.{IsConsistent}

put_ref-All :
    (bs : List Ref) (b : Ref) (m : List (Str × Ref))
    → contains_ref bs b ≡ true
    → All (λ e. contains_ref bs e.1 ≡ true) m
    → All (λ e. contains_ref bs e.1 ≡ true) (put_ref b m)
unfolding put_ref
put_ref-All bs b [] c a = (c, tt)
put_ref-All bs b ((k, x) ∷ m) c a = elim (Bool-cases (str_eq k b.id)) [
  | inl e ↦ rw e (c, a.1)
  | inr e ↦ rw e (a.0, put_ref-All bs b m c a.1)
]

index_refs-All :
    (bs : List Ref) (m : List (Str × Ref)) (l : List Ref)
    → All (λ b. contains_ref bs b ≡ true) l
    → All (λ e. contains_ref bs e.1 ≡ true) m
    → All (λ e. contains_ref bs e.1 ≡ true) (index_refs m l)
unfolding index_refs
index_refs-All bs m [] h a = a
index_refs-All bs m (b ∷ l) h a = index_refs-All bs (put_ref b m) l h.1 (put_ref-All bs b m h.0 a)

contains_more :
    (x : Ref) (bs l : List Ref)
    → All (λ b. contains_ref bs b ≡ true) l
    → All (λ b. contains_ref (x ∷ bs) b ≡ true) l
unfolding contains_ref
contains_more x bs [] h = tt
contains_more x bs (b ∷ l) h = (ground (arith, h.0), contains_more x bs l h.1)

contains_own : (l : List Ref) → All (λ b. contains_ref l b ≡ true) l
unfolding contains_ref
contains_own [] = tt
contains_own (x ∷ l) = (ground arith, contains_more x l l (contains_own l))

same_membership_refl : (l : List Ref) → same_membership l l ≡ true
unfolding same_membership
same_membership_refl [] = refl
same_membership_refl (x ∷ l) = ground (arith, same_membership_refl l)

-- Every backend of the list is the one that the index has under its id.
abbrev pub Finds : List (Str × Ref) → List Ref → Type 0
Finds m bs = All (λ (b : Ref). find_ref b.id m ≡ some b) bs

-- No id stands twice.
abbrev pub UniqueIds : List Ref → Type 0
UniqueIds [] = Unit {0}
UniqueIds (x ∷ xs) = All (λ (y : Ref). str_eq x.id y.id ≡ false) xs × UniqueIds xs

find_ref-put_same : (b : Ref) (m : List (Str × Ref)) → find_ref b.id (put_ref b m) ≡ some b
unfolding find_ref put_ref
find_ref-put_same b [] = rw (str_eq_refl b.id) refl
find_ref-put_same b ((k, x) ∷ m) = elim (Bool-cases (str_eq k b.id)) [
  | inl e ↦ rw e (rw e refl)
  | inr e ↦ rw e (rw e (find_ref-put_same b m))
]

find_ref-put_other :
    (id : Str) (b : Ref) (m : List (Str × Ref))
    → str_eq b.id id ≡ false
    → find_ref id (put_ref b m) ≡ find_ref id m
unfolding find_ref put_ref
find_ref-put_other id b [] n = rw n refl
find_ref-put_other id b ((k, x) ∷ m) n = elim (Bool-cases (str_eq k b.id)) [
  | inl e ↦ rw e (same_key (str_eq→eq k b.id e))
  | inr e ↦ rw e (ground (arith, find_ref-put_other id b m n))
]
  where
    same_key : k ≡ b.id → find_ref id ((k, b) ∷ m) ≡ find_ref id ((k, x) ∷ m)
    same_key e = let other : str_eq k id ≡ false = rw e n in rw other refl

find_ref-index_refs :
    (id : Str) (m : List (Str × Ref)) (bs : List Ref)
    → All (λ (y : Ref). str_eq y.id id ≡ false) bs
    → find_ref id (index_refs m bs) ≡ find_ref id m
unfolding index_refs
find_ref-index_refs id m [] a = refl
find_ref-index_refs id m (b ∷ bs) a =
    find_ref-index_refs id (put_ref b m) bs a.1 ∙ find_ref-put_other id b m a.0

index_refs-Finds :
    (m : List (Str × Ref)) (bs : List Ref) → UniqueIds bs → Finds (index_refs m bs) bs
unfolding index_refs
index_refs-Finds m [] u = tt
index_refs-Finds m (b ∷ bs) u = (
  find_ref-index_refs b.id (put_ref b m) bs (apart b bs u.0) ∙ find_ref-put_same b m,
  index_refs-Finds (put_ref b m) bs u.1,
)
  where
    apart :
        (b : Ref) (bs : List Ref)
        → All (λ (y : Ref). str_eq b.id y.id ≡ false) bs
        → All (λ (y : Ref). str_eq y.id b.id ≡ false) bs
    apart b [] a = tt
    apart b (y ∷ bs) a = (str_eq_symm b.id y.id a.0, apart b bs a.1)

-- The pointers of a list of backends.
abbrev pub ptrs : List Ref → List ℕ
ptrs bs = map (λ (b : Ref). b.ptr) bs

same_membership-ptrs : (xs ys : List Ref) → same_membership xs ys ≡ true → ptrs xs ≡ ptrs ys
unfolding same_membership
same_membership-ptrs [] [] h = refl
same_membership-ptrs [] (y ∷ ys) h = cc
same_membership-ptrs (x ∷ xs) [] h = cc
same_membership-ptrs (x ∷ xs) (y ∷ ys) h = ground (arith, same_membership-ptrs xs ys)

-- A balancer that suits `Pick`: its snapshot is consistent, every backend of it is found under its id, and
-- the ring is built from these backends.
pub record IsPublished (sum64 : Str → ℕ) (b : Balancer) : Type 0 where
  pub consistent : IsConsistent b.snap
  pub found : Finds b.snap.by_id b.snap.backends
  pub ring_built : b.ring.snap ≡ build sum64 b.ring.virtual_nodes (map member_of b.snap.backends)

-- `Rebuild` from a list of distinct backends with distinct ids keeps the snapshot consistent, every
-- backend of it findable under its id, and the ring built from the backends of the snapshot. It leaves a
-- closed balancer as it is, and the snapshot of an open one equal to the list, pointer by pointer and
-- in order.
pub rebuild-IsPublished :
    (sum64 : Str → ℕ) (b : Balancer) (backends : List Ref)
    → IsPublished sum64 b
    → UniqueRefs backends
    → UniqueIds backends
    → let r = rebuild sum64 b backends in
      IsPublished sum64 r
      × ((b.closed ≡ true) × (r ≡ b) ⊎ (b.closed ≡ false) × (ptrs r.snap.backends ≡ ptrs backends))
unfolding rebuild set
rebuild-IsPublished sum64 b backends ok u i =
    let P : Balancer → Type 0 = λ r.
      IsPublished sum64 r
      × ((b.closed ≡ true) × (r ≡ b)
          ⊎ (b.closed ≡ false) × (ptrs r.snap.backends ≡ ptrs backends)) in
    if_elim P b.closed (λ shut. (ok, inl (shut, refl)))
      (λ live.
        if_elim P (same_membership b.snap.backends backends)
          (λ same. (ok, inr (live, same_membership-ptrs b.snap.backends backends same)))
          (λ moved. (
            record {
              consistent = record {
                distinct = u;
                indexed = index_refs-All backends [] backends (contains_own backends) tt;
              };
              found = index_refs-Finds [] backends i;
              ring_built = refl;
            },
            inr (live, refl),
          )))

abbrev IsSettled : Balancer → List Ref → Type 0
IsSettled b backends = (b.closed || same_membership b.snap.backends backends) ≡ true

rebuild_of_IsSettled :
    (sum64 : Str → ℕ) (b : Balancer) (backends : List Ref)
    → IsSettled b backends
    → rebuild sum64 b backends ≡ b
unfolding rebuild
rebuild_of_IsSettled sum64 b backends h = ground arith

rebuild-IsSettled :
    (sum64 : Str → ℕ) (b : Balancer) (backends : List Ref)
    → IsSettled (rebuild sum64 b backends) backends
unfolding rebuild
rebuild-IsSettled sum64 b backends = ground (arith, same_membership_refl backends)

-- A second `Rebuild` from the same list changes nothing: neither the ring nor the snapshot is built
-- again.
pub rebuild_idempotent :
    (sum64 : Str → ℕ) (b : Balancer) (backends : List Ref)
    → rebuild sum64 (rebuild sum64 b backends) backends ≡ rebuild sum64 b backends
rebuild_idempotent sum64 b backends =
    rebuild_of_IsSettled sum64 (rebuild sum64 b backends) backends
      (rebuild-IsSettled sum64 b backends)

-- A new balancer over distinct backends with distinct ids suits `Pick` in this way, with a snapshot equal to the list pointer
-- by pointer and in order, whatever number of virtual nodes it is given.
pub new_balancer-IsPublished :
    (sum64 : Str → ℕ) (virtual_nodes : ℤ) (backends : List Ref)
    → UniqueRefs backends
    → UniqueIds backends
    → IsPublished sum64 (new_balancer sum64 virtual_nodes backends)
      × (ptrs (new_balancer sum64 virtual_nodes backends).snap.backends ≡ ptrs backends)
unfolding new_balancer
new_balancer-IsPublished sum64 virtual_nodes backends u i =
    let empty : Balancer = record {
      ring = new sum64 (if leb_ℤ virtual_nodes (pos 0) then pos 200 else virtual_nodes) [];
      snap = record { backends = []; by_id = [] };
      rr = 0;
      closed = false;
    } in
    let none_yet : IsPublished sum64 empty = record {
      consistent = record { distinct = tt; indexed = tt };
      found = tt;
      ring_built = unfold new in refl;
    } in
    let r = rebuild-IsPublished sum64 empty backends none_yet u i in
    elim (r.1) [ inl shut ↦ cc (shut.0) | inr live ↦ (r.0, live.1) ]

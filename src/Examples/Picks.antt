-- ===== src/Examples/Picks.antt =====
-- internal/balancer/balancer.go on a concrete pool.
use nw_lb_go.Base.{
  ℕ, ◌+◌, ◌-◌, ◌%◌, ◌^◌, ◌<◌, ◌≡◌, ◌⊎◌, refl, not, ◌&&◌, if◌then◌else◌, pos, true, false, [], ◌∷◌,
  length, Str, codes, arith, ◌==◌, Bool, str_eq, str_lt, decimal,
}
use nw_lb_go.Base.Sort.{sort_by, insert_by}
use nw_lb_go.Base.Search.{search}
use nw_lb_go.Hashring.Types.{
  build, uniq_from, put, sorted_points, points, points_of, point_at, vnode_count,
}
use nw_lb_go.Hashring.Ring.{get_n, get_n_loop, contains, index}
use nw_lb_go.Balancer.Types.{find_ref, Ref, Gate, Balancer, contains_ref}
use nw_lb_go.Balancer.Order.{steady}
use nw_lb_go.Balancer.Preferred.{key_order, first_of, preferred, any_ref, pick-Preferred}
use nw_lb_go.Balancer.Pick.{wanted, pick, rebuild}
use nw_lb_go.Balancer.Collect.{UniqueRefs, IsCandidates}
use nw_lb_go.Balancer.Safety.{IsConsistent, next_rr, pick-IsCandidates}
use nw_lb_go.Balancer.Fallback.{pick_fails_open}
use nw_lb_go.Balancer.Rebuilt.{IsPublished, ptrs, rebuild-IsPublished}

abbrev length_hash : Str → ℕ
length_hash = length

abbrev first : Ref
first = record { ptr = 1; id = codes "a"; weight = pos 100 }

abbrev second : Ref
second = record { ptr = 2; id = codes "b"; weight = pos 100 }

-- A pool that answers no to every second question.
abbrev moody : Gate
moody = record {
  S = ℕ;
  available = λ n b. (n + 1, n % 2 == 0);
  healthy = λ n b. (n + 1, n % 2 == 0);
}

-- A pool with nothing healthy.
abbrev down : Gate
down = record { S = ℕ; available = λ n b. (n, false); healthy = λ n b. (n, false) }

abbrev pair : Balancer
pair = record {
  ring = record {
    virtual_nodes = pos 2;
    snap = build length_hash (pos 2) (record { id = codes "a"; weight = pos 100 } ∷ []);
  };
  snap = record {
    backends = first ∷ second ∷ [];
    by_id = (codes "a", first) ∷ (codes "b", second) ∷ [];
  };
  rr = 2 ^ 64 - 1;
  closed = false;
}

pair-UniqueRefs : UniqueRefs (first ∷ second ∷ [])
unfolding contains_ref
pair-UniqueRefs = (refl, (refl, tt))

pair-IsConsistent : IsConsistent pair.snap
unfolding contains_ref
pair-IsConsistent = record { distinct = pair-UniqueRefs; indexed = (refl, (refl, tt)) }

pick-IsCandidates_example :
    let r = pick moody length_hash 0 pair (codes "k") (pos 2) in
    IsCandidates pair.snap.backends (wanted (pos 2) (length pair.snap.backends)) r.2
    × (r.1 ≡ (
        if not (length pair.snap.backends == 0) && str_eq (codes "k") []
        then next_rr pair
        else pair))
pick-IsCandidates_example =
    pick-IsCandidates moody length_hash 0 pair (codes "k") (pos 2) pair-IsConsistent

pick_fails_open_example : 0 < length (pick down length_hash 0 pair (codes "k") (pos 2)).2
pick_fails_open_example = pick_fails_open down length_hash 0 pair (codes "k") (pos 2) (omega arith)

-- A ring of two backends, of which only the second is available.
abbrev both : Balancer
both = record pair {
  ring = record {
    virtual_nodes = pos 2;
    snap = build length_hash (pos 2) (
        record { id = codes "a"; weight = pos 100 }
        ∷ record { id = codes "b"; weight = pos 100 }
        ∷ []);
  };
}

both-IsPublished : IsPublished length_hash both
unfolding find_ref str_eq
both-IsPublished = record {
  consistent = pair-IsConsistent;
  found = (refl, (refl, tt));
  ring_built = refl;
}

rebuild-IsPublished_example :
    let r = rebuild length_hash both (second ∷ first ∷ []) in
    IsPublished length_hash r
    × ((both.closed ≡ true) × (r ≡ both)
        ⊎ (both.closed ≡ false) × (ptrs r.snap.backends ≡ ptrs (second ∷ first ∷ [])))
unfolding contains_ref str_eq
rebuild-IsPublished_example =
    rebuild-IsPublished length_hash both (second ∷ first ∷ []) both-IsPublished (refl, (refl, tt))
      ((refl, tt), (tt, tt))

abbrev only_second : Ref → Bool
only_second b = b.ptr == 2

abbrev both_healthy : Ref → Bool
both_healthy b = true

both-order : key_order length_hash both (codes "k") ≡ first ∷ second ∷ []
unfolding get_n get_n_loop contains find_ref index build uniq_from put sorted_points sort_by
    insert_by points points_of point_at vnode_count str_eq str_lt decimal search
both-order = refl

both-known : 0 < length (key_order length_hash both (codes "k"))
both-known = rw both-order (omega arith)

pick-Preferred_example :
    let max = wanted (pos 1) (length both.snap.backends) in
    let order = key_order length_hash both (codes "k") in
    (pick (steady only_second both_healthy) length_hash tt both (codes "k") (pos 1)).2
    ≡ first_of
        (preferred max only_second order)
        (preferred max both_healthy order)
        (preferred max any_ref order)
unfolding str_eq
pick-Preferred_example =
    pick-Preferred only_second both_healthy length_hash both (codes "k") (pos 1) refl both-known

-- ===== src/Hashring/Build.antt =====
-- internal/hashring/hashring.go: what `build` publishes, and that it depends on the normal form of
-- the membership alone.
use nw_lb_go.Base.{
  ℕ, zero, suc, ◌+◌, ◌≡◌, refl, ◌∙◌, ap, not, if◌then◌else◌, List, [], ◌∷◌, Str, ℤ, str_eq, arith,
}
use nw_lb_go.Base.Sort.{keep, sort_by, keep-append, keep-sort_by}
use nw_lb_go.Hashring.Types.{
  Member, uniq_from, member_lt, point_lt, vnode_count, point_at, points_of, points, sorted_points,
  snapshot_of, build,
}
use nw_lb_go.Hashring.Members.{normal, point_lt-IsOrder}

-- The membership without one id.
abbrev pub without : Str → List Member → List Member
without id = keep (λ m. not (str_eq m.id id))

module _ (sum64 : Str → ℕ) (virtual_nodes : ℤ) where
  pub build_lem :
      (ms : List Member)
      → build sum64 virtual_nodes ms ≡ snapshot_of sum64 virtual_nodes (normal ms)
  unfolding build uniq_from
  build_lem ms = by_uniq (uniq_from [] ms) refl
    where
      by_uniq :
          (us : List Member)
          → uniq_from [] ms ≡ us
          → build sum64 virtual_nodes ms ≡ snapshot_of sum64 virtual_nodes (sort_by member_lt us)
      by_uniq [] e = rw (e, build) (unfold sort_by sorted_points points in refl)
      by_uniq (u ∷ us) e = rw (e, build) refl

  -- The points of the members other than `id` are the points that it does not own.
  keep-points_of :
      (id owner : Str) (i k : ℕ)
      → keep (λ p. not (str_eq p.owner id)) (points_of sum64 owner i k)
        ≡ (if str_eq owner id then [] else points_of sum64 owner i k)
  unfolding keep points_of point_at
  keep-points_of id owner i zero = ground arith
  keep-points_of id owner i (suc k) = ground (arith, keep-points_of id owner (i + 1) k)

  keep-points :
      (id : Str) (ms : List Member)
      → keep (λ p. not (str_eq p.owner id)) (points sum64 virtual_nodes ms)
        ≡ points sum64 virtual_nodes (without id ms)
  unfolding points keep
  keep-points id [] = refl
  keep-points id (m ∷ ms) =
      let k = vnode_count virtual_nodes m.weight in
      keep-append (λ p. not (str_eq p.owner id)) (points_of sum64 m.id 0 k)
        (points sum64 virtual_nodes ms)
      ∙ rw (keep-points_of id m.id 0 k, keep-points id ms) (ground arith)

  pub keep-sorted_points :
      (id : Str) (ms : List Member)
      → keep (λ p. not (str_eq p.owner id)) (sorted_points sum64 virtual_nodes ms)
        ≡ sorted_points sum64 virtual_nodes (without id ms)
  unfolding sorted_points
  keep-sorted_points id ms =
      keep-sort_by point_lt point_lt-IsOrder (λ p. not (str_eq p.owner id))
        (points sum64 virtual_nodes ms)
      ∙ ap (sort_by point_lt) (keep-points id ms)

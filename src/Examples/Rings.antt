-- ===== src/Examples/Rings.antt =====
-- internal/hashring/hashring.go on a concrete ring.
use nw_lb_go.Base.{
  ℕ, ◌+◌, ◌*◌, ◌%◌, ◌≡◌, refl, pos, true, false, List, [], ◌∷◌, Str, codes, str_eq, str_lt, All,
  decimal,
}
use nw_lb_go.Base.Sort.{sort_by, insert_by}
use nw_lb_go.Base.Search.{search}
use nw_lb_go.Hashring.Types.{
  Member, vnode_count, put, uniq_from, point_at, points_of, points, sorted_points, build,
}
use nw_lb_go.Hashring.Ring.{Ring, index, add, remove, get, get_n}
use nw_lb_go.Hashring.GetN.{IsPreference, get_n-IsPreference}
use nw_lb_go.Hashring.Stability.{IsBuilt, build-IsBuilt, get-remove, get-add, get-IsBuilt}
use nw_lb_go.Hashring.Lookup.{answer, owner_of}

-- A hash function: the bytes as digits to base 31, modulo 1009.
abbrev toy : Str → ℕ
toy [] = 7
toy (x ∷ xs) = (x + 31 * toy xs) % 1009

abbrev trio : List Member
trio =
    record { id = codes "a"; weight = pos 100 }
    ∷ record { id = codes "b"; weight = pos 200 }
    ∷ record { id = codes "c"; weight = pos 0 }
    ∷ []

abbrev ring : Ring
ring = record { virtual_nodes = pos 2; snap = build toy (pos 2) trio }

ring-IsBuilt : IsBuilt toy ring
ring-IsBuilt = build-IsBuilt toy (pos 2) trio

-- The key "k" belongs to "b".
ring-owner : get toy ring (codes "k") ≡ (codes "b", true)
unfolding get index build uniq_from put sorted_points sort_by insert_by points points_of point_at
    vnode_count str_eq str_lt decimal search
ring-owner = refl

get-remove_example : get toy (remove toy ring (codes "a")) (codes "k") ≡ (codes "b", true)
unfolding str_eq
get-remove_example =
    get-remove toy ring (codes "a") (codes "k") (codes "b") ring-IsBuilt ring-owner refl

abbrev newcomer : Member
newcomer = record { id = codes "d"; weight = pos 100 }

newcomer-fresh : All (λ (x : Member). str_eq x.id newcomer.id ≡ false) ring.snap.members
unfolding build uniq_from put sort_by insert_by str_eq str_lt
newcomer-fresh = (refl, (refl, (refl, tt)))

grown-owner : get toy (add toy ring newcomer) (codes "k") ≡ (codes "b", true)
unfolding get index build uniq_from put sorted_points sort_by insert_by points points_of point_at
    vnode_count str_eq str_lt decimal search add
grown-owner = refl

get-add_example : get toy ring (codes "k") ≡ (codes "b", true)
unfolding str_eq
get-add_example =
    get-add toy ring newcomer (codes "k") (codes "b") ring-IsBuilt newcomer-fresh grown-owner refl

get_n-IsPreference_example :
    IsPreference ring.snap.members (pos 2) (get_n toy ring (codes "k") (pos 2))
get_n-IsPreference_example = get_n-IsPreference toy ring (codes "k") ring-IsBuilt (pos 2)

get-IsBuilt_example :
    get toy ring (codes "k")
    ≡ answer (owner_of (toy (codes "k")) (sorted_points toy ring.virtual_nodes ring.snap.members))
get-IsBuilt_example = get-IsBuilt toy ring (codes "k") ring-IsBuilt

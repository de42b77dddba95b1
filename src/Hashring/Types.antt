-- ===== src/Hashring/Types.antt =====
-- internal/hashring/hashring.go: members, their points, and `build`. The hash `xxhash.Sum64String`
-- is third-party code, and so a parameter, `sum64`.
use nw_lb_go.Base.{
  ℕ, zero, suc, ◌+◌, ◌-◌, ◌*◌, ◌/◌, ◌%◌, ◌^◌, ℤ, pos, negsuc, leb_ℤ, ltb, ◌==◌, Bool, ◌||◌, ◌&&◌,
  if◌then◌else◌, List, [], ◌∷◌, ◌++◌, map, Str, codes, str_eq, str_lt, decimal,
}
use nw_lb_go.Base.Sort.{sort_by}

pub record Member : Type 0 where
  pub id : Str
  pub weight : ℤ

pub record Point : Type 0 where
  pub hash : ℕ
  pub owner : Str

pub record Snapshot : Type 0 where
  pub hashes : List ℕ
  pub owners : List Str
  pub members : List Member

-- A Go `int` as the 64 bits that hold it.
abbrev pub int_bits : ℤ → ℕ
int_bits (pos n) = n % 2 ^ 64
int_bits (negsuc n) = 2 ^ 64 - 1 - n % 2 ^ 64

-- The product wraps at 64 bits; if that makes it negative, so is the quotient.
unfoldable pub vnode_count : ℤ → ℤ → ℕ
vnode_count virtual_nodes weight =
    let w = if leb_ℤ weight (pos 0) then pos 100 else weight in
    let product = int_bits virtual_nodes * int_bits w % 2 ^ 64 in
    let n = if ltb product (2 ^ 63) then product / 100 else 0 in if ltb n 1 then 1 else n

-- `uniq[m.ID] = m`: a later member takes the place of an earlier one with its id.
unfoldable pub put : Member → List Member → List Member
put m [] = m ∷ []
put m (x ∷ xs) = if str_eq x.id m.id then m ∷ xs else x ∷ put m xs

unfoldable pub uniq_from : List Member → List Member → List Member
uniq_from acc [] = acc
uniq_from acc (m ∷ ms) = uniq_from (put m acc) ms

abbrev pub member_lt : Member → Member → Bool
member_lt a b = str_lt a.id b.id

-- `cmp.Or(cmp.Compare(a.hash, b.hash), cmp.Compare(a.owner, b.owner))` is negative.
abbrev pub point_lt : Point → Point → Bool
point_lt a b = ltb a.hash b.hash || (a.hash == b.hash && str_lt a.owner b.owner)

module _ (sum64 : Str → ℕ) where
  -- `fmt.Sprintf("%s#%d", m.ID, i)`, hashed.
  unfoldable pub point_at : Str → ℕ → Point
  point_at id i = record { hash = sum64 (id ++ codes "#" ++ decimal i); owner = id }

  -- The points numbered from `i` on, `k` of them.
  unfoldable pub points_of : Str → ℕ → ℕ → List Point
  points_of id i zero = []
  points_of id i (suc k) = point_at id i ∷ points_of id (i + 1) k

  unfoldable pub points : ℤ → List Member → List Point
  points virtual_nodes [] = []
  points virtual_nodes (m ∷ ms) =
      points_of m.id 0 (vnode_count virtual_nodes m.weight) ++ points virtual_nodes ms

  unfoldable pub sorted_points : ℤ → List Member → List Point
  sorted_points virtual_nodes sorted = sort_by point_lt (points virtual_nodes sorted)

  abbrev pub snapshot_of : ℤ → List Member → Snapshot
  snapshot_of virtual_nodes sorted = record {
    hashes = map (λ (p : Point). p.hash) (sorted_points virtual_nodes sorted);
    owners = map (λ (p : Point). p.owner) (sorted_points virtual_nodes sorted);
    members = sorted;
  }

  -- For an empty membership this is the empty snapshot, as in the source.
  unfoldable pub build : ℤ → List Member → Snapshot
  unfolding uniq_from
  build virtual_nodes members = elim (uniq_from [] members) [
    | [] ↦ record { hashes = []; owners = []; members = [] }
    | m ∷ ms ↦ snapshot_of virtual_nodes (sort_by member_lt (m ∷ ms))
  ]

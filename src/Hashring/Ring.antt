-- ===== src/Hashring/Ring.antt =====
-- internal/hashring/hashring.go: `Ring` and its methods. The mutex orders the writers, and a reader
-- sees one published snapshot, so each method is one step.
use nw_lb_go.Base.{
  ℕ, zero, suc, ◌+◌, ◌%◌, ℤ, pos, pos_part, leb_ℤ, ltb_ℤ, leb, ◌==◌, Bool, true, false, not, ◌||◌,
  if◌then◌else◌, List, [], ◌∷◌, length, get_or, snoc, Str, str_eq,
}
use nw_lb_go.Base.Sort.{keep}
use nw_lb_go.Base.Search.{search}
use nw_lb_go.Hashring.Types.{Member, Snapshot, build}

pub record Ring : Type 0 where
  pub virtual_nodes : ℤ
  pub snap : Snapshot

-- `slices.Contains`.
unfoldable pub contains : List Str → Str → Bool
contains [] s = false
contains (x ∷ xs) s = str_eq x s || contains xs s

-- The position of the first point at or after `h`, wrapping to 0.
unfoldable pub index : Snapshot → ℕ → ℕ
index s h =
    let i = search (length s.hashes) (λ i. leb h (get_or s.hashes i 0)) in
    if i == length s.hashes then 0 else i

-- The loop of `GetN`, from its `i`-th round on, with `k` rounds left.
unfoldable pub get_n_loop : Snapshot → ℕ → ℕ → ℕ → ℕ → List Str → List Str
get_n_loop s n start zero i out = out
get_n_loop s n start (suc k) i out =
    let owner = get_or s.owners ((start + i) % length s.hashes) [] in
    let skipped = get_n_loop s n start k (i + 1) out in
    let more = get_n_loop s n start k (i + 1) (snoc out owner) in
    if contains out owner
    then skipped
    else if length (snoc out owner) == n
    then snoc out owner
    else more

module _ (sum64 : Str → ℕ) where
  unfoldable pub new : ℤ → List Member → Ring
  new virtual_nodes members = record {
    virtual_nodes = virtual_nodes;
    snap = build sum64 virtual_nodes members;
  }

  unfoldable pub set : Ring → List Member → Ring
  set r members = record r { snap = build sum64 r.virtual_nodes members }

  unfoldable pub add : Ring → Member → Ring
  add r m = record r { snap = build sum64 r.virtual_nodes (snoc r.snap.members m) }

  unfoldable pub remove : Ring → Str → Ring
  remove r id =
      let next = keep (λ m. not (str_eq m.id id)) r.snap.members in
      if length next == length r.snap.members
      then r
      else record r { snap = build sum64 r.virtual_nodes next }

  -- `none` is the empty ring.
  unfoldable pub get : Ring → Str → Str × Bool
  get r key =
      let s = r.snap in
      if length s.hashes == 0 then ([], false) else (get_or s.owners (index s (sum64 key)) [], true)

  unfoldable pub get_n : Ring → Str → ℤ → List Str
  get_n r key n =
      let s = r.snap in
      let m = if ltb_ℤ (pos (length s.members)) n then length s.members else pos_part n in
      let start = index s (sum64 key) in
      if leb_ℤ n (pos 0)
      then []
      else if length s.hashes == 0
      then []
      else get_n_loop s m start (length s.hashes) 0 []

unfoldable pub members : Ring → List Member
members r = r.snap.members

unfoldable pub len : Ring → ℕ
len r = length r.snap.members

unfoldable pub virtual_nodes_count : Ring → ℕ
virtual_nodes_count r = length r.snap.hashes

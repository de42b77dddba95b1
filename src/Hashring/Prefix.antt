-- ===== src/Hashring/Prefix.antt =====
-- internal/hashring/hashring.go: asked for fewer owners, `GetN` returns the first of those it returns
-- when it is asked for more.
use nw_lb_go.Base.{
  ℕ, zero, suc, ◌+◌, ◌%◌, ◌≤◌, ◌<◌, ◌≡◌, refl, sym, ◌∙◌, ap, ◌⊎◌, inl, inr, pos, ltb, true, false,
  List, [], ◌∷◌, ◌++◌, Str, arith, Bool-cases, length, ◌==◌, snoc, get_or, length-snoc,
  snoc-eq-append, append_nil, append_assoc, if◌then◌else◌,
}
use native.Mathlib.Decide.{dec_lt}
use nw_lb_go.Hashring.Types.{Snapshot}
use nw_lb_go.Hashring.Ring.{Ring, contains, get_n_loop, get_n, index}
use nw_lb_go.Hashring.Preference.{get_n_loop-Walked}

-- `ys` begins with `xs`.
abbrev pub Extends : List Str → List Str → Type 0
Extends xs ys = (rest : List Str) × (ys ≡ xs ++ rest)

Extends-snoc : (xs ys : List Str) (x : Str) → Extends (snoc xs x) ys → Extends xs ys
Extends-snoc xs ys x (rest, e) =
    (x ∷ rest, e ∙ ap (λ l. l ++ rest) (snoc-eq-append xs x) ∙ append_assoc xs (x ∷ []) rest)

Extends-refl : (xs : List Str) → Extends xs xs
Extends-refl xs = ([], sym (append_nil xs))

module _ (s : Snapshot) (start : ℕ) where
  get_n_loop-grows : (n k i : ℕ) (out : List Str) → Extends out (get_n_loop s n start k i out)
  unfolding get_n_loop
  get_n_loop-grows n zero i out = Extends-refl out
  get_n_loop-grows n (suc k) i out =
      let owner = get_or s.owners ((start + i) % length s.hashes) [] in
      let longer = snoc out owner in
      elim (Bool-cases (contains out owner)) [
        | inl old ↦ rw old (get_n_loop-grows n k (i + 1) out)
        | inr new ↦ elim (Bool-cases (length longer == n)) [
          | inl full ↦ rw (new, full) (Extends-snoc out longer owner (Extends-refl longer))
          | inr room ↦
              rw (new, room)
                (Extends-snoc out (get_n_loop s n start k (i + 1) longer) owner
                  (get_n_loop-grows n k (i + 1) longer))
        ]
      ]

  get_n_loop-Extends :
      (m n k i : ℕ) (out : List Str)
      → m ≤ n
      → length out < m
      → Extends (get_n_loop s m start k i out) (get_n_loop s n start k i out)
  unfolding get_n_loop
  get_n_loop-Extends m n zero i out le small = Extends-refl out
  get_n_loop-Extends m n (suc k) i out le small =
      let owner = get_or s.owners ((start + i) % length s.hashes) [] in
      let longer = snoc out owner in
      let size = length-snoc out owner in
      elim (Bool-cases (contains out owner)) [
        | inl old ↦ rw old (get_n_loop-Extends m n k (i + 1) out le small)
        | inr new ↦ elim (Bool-cases (length longer == m)) [
          | inr room ↦
              let further : (length longer == n) ≡ false = ground arith in
              rw (new, room, further) (get_n_loop-Extends m n k (i + 1) longer le (ground arith))
          | inl full ↦ elim (Bool-cases (length longer == n)) [
            | inl both ↦ rw (new, full, both) (Extends-refl longer)
            | inr more ↦ rw (new, full, more) (get_n_loop-grows n k (i + 1) longer)
          ]
        ]
      ]

-- How many owners `GetN` looks for.
abbrev sought : Ring → ℕ → ℕ
sought r n = if ltb (length r.snap.members) n then length r.snap.members else n

module _ (sum64 : Str → ℕ) (r : Ring) (key : Str) where
  get_n-loop :
      (n : ℕ)
      → 0 < n
      → 0 < length r.snap.hashes
      → get_n sum64 r key (pos n)
        ≡ get_n_loop r.snap (sought r n) (index r.snap (sum64 key)) (length r.snap.hashes) 0 []
  unfolding get_n
  get_n-loop n h p = ground arith

  get_n-none : (n : ℕ) → (length r.snap.hashes == 0) ≡ true → get_n sum64 r key (pos n) ≡ []
  unfolding get_n
  get_n-none n h = ground arith

  -- The list for `m` begins the one for `n`, and is all of it, or has at most `m` owners.
  pub get_n-Extends :
      (m n : ℕ)
      → 0 < m
      → m ≤ n
      → let few = get_n sum64 r key (pos m) in
        let full = get_n sum64 r key (pos n) in
        Extends few full × ((few ≡ full) ⊎ ((length few ≤ m) × (m < n)))
  get_n-Extends m n h le =
      let start = index r.snap (sum64 key) in
      let k = length r.snap.hashes in
      elim (Bool-cases (length r.snap.hashes == 0)) [
        | inl none_left ↦
            rw (get_n-none m none_left, get_n-none n none_left) (Extends-refl [], inl refl)
        | inr some_left ↦
            let p : 0 < length r.snap.hashes = ground arith in
            let few = get_n-loop m h p in
            let full = get_n-loop n (omega arith) p in
            elim (dec_lt (sought r m) (sought r n)) [
              | yes less ↦
                  let is_m : sought r m ≡ m = ground arith in
                  let walked = get_n_loop-Walked r.snap (sought r m) start k 0 [] tt (rw is_m h) in
                  rw (few, full)
                    (
                      get_n_loop-Extends r.snap start (sought r m) (sought r n) k 0 [] (omega arith)
                          (rw is_m h),
                      inr (omega (arith, walked.bounded, is_m), ground arith),
                    )
              | no same ↦
                  let eq : sought r m ≡ sought r n = ground arith in
                  rw (few, full, eq)
                    (Extends-refl (get_n_loop r.snap (sought r n) start k 0 []), inl refl)
            ]
      ]

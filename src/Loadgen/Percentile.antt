-- ===== src/Loadgen/Percentile.antt =====
-- cmd/loadgen/stats.go: `percentileIndex` and `percentile`.
use nw_lb_go.Base.{
  ℕ, zero, suc, ◌+◌, ◌-◌, ◌*◌, ◌/◌, ◌≤◌, ◌<◌, ◌≡◌, ap, Bool, false, not, if◌then◌else◌, Bool-cases,
  inl, inr, List, [], ◌∷◌, ℤ, pos, negsuc, ltb_ℤ, leb, ◌==◌, length, get_or, All, arith,
}
use Prim.Native.Nat.{min}
use nw_lb_go.Base.Sort.{keep, keep_none, IsSorted, IsOrder}

-- A percentile as `math.Round(p * 10000)` gives it, in parts per million: for `p` with four decimals it is
-- exact. Or not a number.
pub data Percent : Type 0 where
  not_a_number : Percent
  millionths : ℤ → Percent

-- `(pm*n + 999999) / 1000000 - 1`, cut to [0, n - 1].
unfoldable pub nearest_rank : ℕ → ℕ → ℕ
nearest_rank n pm = min ((pm * n + 999999) / 1000000 - 1) (n - 1)

unfoldable pub above_zero : ℕ → ℤ → ℤ
unfolding nearest_rank
above_zero n (negsuc k) = pos 0
above_zero n (pos pm) =
    if leb pm 0 then pos 0 else if leb 1000000 pm then pos (n - 1) else pos (nearest_rank n pm)

unfoldable pub percentile_index : ℕ → Percent → ℤ
unfolding above_zero
percentile_index n not_a_number = if n == 0 then negsuc 0 else pos 0
percentile_index n (millionths p) = if n == 0 then negsuc 0 else above_zero n p

unfoldable pub at_index : List ℤ → ℤ → ℤ
at_index sorted (negsuc k) = pos 0
at_index sorted (pos i) = get_or sorted i (pos 0)

unfoldable pub percentile : List ℤ → Percent → ℤ
unfolding percentile_index at_index
percentile sorted p = at_index sorted (percentile_index (length sorted) p)

pub IsOrder-ltb_ℤ : IsOrder ltb_ℤ
IsOrder-ltb_ℤ = record { split = λ x y z a b. ground arith; asym = λ x y a. ground arith }

nearest_rank_lem :
    (n pm : ℕ)
    → 1 ≤ n
    → 1 ≤ pm
    → pm ≤ 1000000
    → let i = nearest_rank n pm in (i < n) × (pm * n ≤ 1000000 * (i + 1)) × (1000000 * i < pm * n)
unfolding nearest_rank
nearest_rank_lem n pm a b c =
    let t = pm * n in
    let low : 1 ≤ pm * n = grind arith in
    let high : pm * n ≤ 1000000 * n = grind arith in
    (omega (arith, high), omega (arith, high), omega (arith, low))

module _ {ℓ} {A : Type ℓ} (lt : A → A → Bool) (o : IsOrder lt) (d : A) where
  irrefl : (x : A) → lt x x ≡ false
  irrefl x = elim (Bool-cases (lt x x)) [ inl e ↦ o.asym x x e | inr e ↦ e ]

  -- In a sorted list at most `i` elements are below the one at index `i`, and more than `i` are not
  -- above it.
  below_rank :
      (xs : List A) (i : ℕ)
      → IsSorted lt xs
      → i < length xs
      → length (keep (λ x. lt x (get_or xs i d)) xs) ≤ i
  unfolding keep
  below_rank [] i s h = absurd (omega arith)
  below_rank (x ∷ xs) zero s h =
      rw (irrefl x) (omega (arith, ap length (keep_none (λ y. lt y x) xs s.0)))
  below_rank (x ∷ xs) (suc i) s h =
      let v = get_or xs i d in
      let r = below_rank xs i s.1 (omega arith) in
      elim (Bool-cases (lt x v)) [
        | inl e ↦ rw e (omega (arith, r))
        | inr e ↦ rw e (omega (arith, r))
      ]

  upto_rank :
      (xs : List A) (i : ℕ)
      → IsSorted lt xs
      → i < length xs
      → suc i ≤ length (keep (λ x. not (lt (get_or xs i d) x)) xs)
  unfolding keep
  upto_rank [] i s h = absurd (omega arith)
  upto_rank (x ∷ xs) zero s h = rw (irrefl x) (omega arith)
  upto_rank (x ∷ xs) (suc i) s h =
      rw (first xs i s.0 (omega arith)) (omega (arith, upto_rank xs i s.1 (omega arith)))
    where
      first :
          (l : List A) (j : ℕ)
          → All (λ y. lt y x ≡ false) l
          → j < length l
          → lt (get_or l j d) x ≡ false
      first [] j a h = absurd (omega arith)
      first (y ∷ l) zero a h = a.0
      first (y ∷ l) (suc j) a h = first l j a.1 (omega arith)

-- What the nearest rank means, for a value `v` that is at `pm` parts per million of the durations.
pub record IsPercentile (pm : ℕ) (xs : List ℤ) (v : ℤ) : Type 0 where
  -- at least that share of them is not above it, and a smaller share is below it
  pub reached : pm * length xs ≤ 1000000 * length (keep (λ x. not (ltb_ℤ v x)) xs)
  pub least : 1000000 * length (keep (λ x. ltb_ℤ x v) xs) < pm * length xs

percentile-inner :
    (xs : List ℤ) (pm : ℕ)
    → 1 ≤ pm
    → pm < 1000000
    → 1 ≤ length xs
    → percentile xs (millionths (pos pm)) ≡ get_or xs (nearest_rank (length xs) pm) (pos 0)
unfolding percentile percentile_index above_zero at_index
percentile-inner xs pm a b c = ground arith

-- A percentile strictly between 0 and 100 of a non-empty sorted slice is a true nearest-rank percentile: at
-- least that share of the durations is no greater, and less than that share is smaller.
pub percentile-IsPercentile :
    (xs : List ℤ) (pm : ℕ)
    → IsSorted ltb_ℤ xs
    → 1 ≤ length xs
    → 1 ≤ pm
    → pm < 1000000
    → IsPercentile pm xs (percentile xs (millionths (pos pm)))
percentile-IsPercentile xs pm s n a b =
    let i = nearest_rank (length xs) pm in
    let r = nearest_rank_lem (length xs) pm n a (omega arith) in
    rw (percentile-inner xs pm a b n) (record {
      reached = (let u = upto_rank ltb_ℤ IsOrder-ltb_ℤ (pos 0) xs i s r.0 in omega (arith, u, r.1));
      least = (let u = below_rank ltb_ℤ IsOrder-ltb_ℤ (pos 0) xs i s r.0 in omega (arith, u, r.2));
    })

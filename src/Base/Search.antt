-- ===== src/Base/Search.antt =====
-- Go's `sort.Search`: the least index at which a test passes, by halving.
use Prim.Native.Nat.{ℕ, zero, suc, ◌+◌, ◌-◌, ◌/◌, ◌≤◌, ◌<◌}
use mathlib.Core.Path.{◌≡◌}
use mathlib.Core.Logic.{inl, inr}
use mathlib.Core.Bool.{Bool, true, false}
use native.Mathlib.Omega.{arith}
use nw_lb_go.Base.Tests.{ltb, ltb→lt, ltb→le, if◌then◌else◌, Bool-cases}

search_loop : ℕ → (ℕ → Bool) → ℕ → ℕ → ℕ
search_loop zero f i j = i
search_loop (suc fuel) f i j =
    let h = (i + j) / 2 in
    let upper = search_loop fuel f (h + 1) j in
    let lower = search_loop fuel f i h in if ltb i j then (if f h then lower else upper) else i

-- The range [0, n) halves in each round, so `n` rounds are more than enough.
unfoldable pub search : ℕ → (ℕ → Bool) → ℕ
unfolding search_loop
search n f = search_loop n f 0 n

-- The index splits [0, n): the test fails below it, and passes at it if it is below `n`.
pub record Splits (n : ℕ) (f : ℕ → Bool) (r : ℕ) : Type 0 where
  pub inside : r ≤ n
  pub below : (k : ℕ) → k < r → f k ≡ false
  pub at : r < n → f r ≡ true

abbrev pub IsMonotone : ℕ → (ℕ → Bool) → Type 0
IsMonotone n f = (i j : ℕ) → i ≤ j → j < n → f i ≡ true → f j ≡ true

module _ (n : ℕ) (f : ℕ → Bool) (mono : IsMonotone n f) where
  search_loop-Splits :
      (fuel i j : ℕ)
      → i ≤ j
      → j ≤ n
      → j - i ≤ fuel
      → ((k : ℕ) → k < i → f k ≡ false)
      → (j < n → f j ≡ true)
      → Splits n f (search_loop fuel f i j)
  unfolding search_loop
  search_loop-Splits zero i j a b enough low high =
      let e : i ≡ j = omega arith in
      record { inside = omega arith; below = low; at = λ h. rw e (high (omega arith)) }
  search_loop-Splits (suc fuel) i j a b enough low high = elim (Bool-cases (ltb i j)) [
    | inr e ↦
        let p = ltb→le i j e in
        let q : i ≡ j = omega arith in
        rw e (record { inside = omega arith; below = low; at = λ h. rw q (high (omega arith)) })
    | inl e ↦
        let p = ltb→lt i j e in
        let h = (i + j) / 2 in
        elim (Bool-cases (f h)) [
          | inl t ↦
              rw (e, t)
                (search_loop-Splits fuel i h (omega arith) (omega arith) (omega arith) low (λ _. t))
          | inr t ↦
              rw (e, t)
                (search_loop-Splits fuel (h + 1) j (omega arith) b (omega arith)
                  (λ k below. fails h t (omega arith) k (omega arith)) high)
        ]
  ]
    where
      fails : (h : ℕ) → f h ≡ false → h < n → (k : ℕ) → k ≤ h → f k ≡ false
      fails h t small k le = elim (Bool-cases (f k)) [
        | inl e ↦ cc (mono k h le small e)
        | inr e ↦ e
      ]

  -- With a monotone test `search` returns the one index that splits the range.
  pub search-Splits : Splits n f (search n f)
  unfolding search
  search-Splits =
      search_loop-Splits n 0 n (omega arith) (omega arith) (omega arith) (λ k h. elim h [ ])
        (λ h. absurd (omega arith))

pub Splits-unique : (n : ℕ) (f : ℕ → Bool) (r s : ℕ) → Splits n f r → Splits n f s → r ≡ s
Splits-unique n f r s p q = ground (arith, p.below s, p.at, q.below r, q.at, p.inside, q.inside)

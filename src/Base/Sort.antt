-- ===== src/Base/Sort.antt =====
-- Go's `slices.SortFunc` over a comparison given as "less than". The order of equal elements, which
-- Go leaves open, matters to no caller: they compare by everything that they hold.
use Prim.Native.Nat.{suc, ◌≤◌}
use mathlib.Core.Path.{◌≡◌, refl, ap, ◌∙◌}
use mathlib.Core.Logic.{inl, inr}
use mathlib.Core.Bool.{Bool, true, false}
use mathlib.Core.List.{List, [], ◌∷◌, ◌++◌}
use native.Mathlib.Omega.{arith}
use nw_lb_go.Base.Tests.{if◌then◌else◌, Bool-cases}
use nw_lb_go.Base.Lists.{All, length}

module _ {ℓ} {A : Type ℓ} where
  -- The elements that pass a test, in order.
  unfoldable pub keep : (A → Bool) → List A → List A
  keep p [] = []
  keep p (x ∷ xs) = let rest = keep p xs in if p x then x ∷ rest else rest

  pub keep-append : (p : A → Bool) (xs ys : List A) → keep p (xs ++ ys) ≡ keep p xs ++ keep p ys
  unfolding keep
  keep-append p [] ys = refl
  keep-append p (x ∷ xs) ys = ground (arith, keep-append p xs ys)

  pub length-keep-le : (p : A → Bool) (xs : List A) → length (keep p xs) ≤ length xs
  unfolding keep
  length-keep-le p [] = omega arith
  length-keep-le p (x ∷ xs) = ground (arith, length-keep-le p xs)

  pub keep-All {κ} : (P : A → Type κ) (p : A → Bool) (xs : List A) → All P xs → All P (keep p xs)
  unfolding keep
  keep-All P p [] h = tt
  keep-All P p (x ∷ xs) h = elim (Bool-cases (p x)) [
    | inl e ↦ rw e (h.0, keep-All P p xs h.1)
    | inr e ↦ rw e (keep-All P p xs h.1)
  ]

  pub keep_of_All : (p : A → Bool) (xs : List A) → All (λ x. p x ≡ true) xs → keep p xs ≡ xs
  unfolding keep
  keep_of_All p [] h = refl
  keep_of_All p (x ∷ xs) h = rw (h.0) (ap (◌∷◌ x) (keep_of_All p xs h.1))

  pub keep_none : (p : A → Bool) (xs : List A) → All (λ x. p x ≡ false) xs → keep p xs ≡ []
  unfolding keep
  keep_none p [] h = refl
  keep_none p (x ∷ xs) h = rw (h.0) (keep_none p xs h.1)

  unfoldable pub insert_by : (A → A → Bool) → A → List A → List A
  insert_by lt x [] = x ∷ []
  insert_by lt x (y ∷ l) = let rest = insert_by lt x l in if lt y x then y ∷ rest else x ∷ y ∷ l

  unfoldable pub sort_by : (A → A → Bool) → List A → List A
  sort_by lt [] = []
  sort_by lt (x ∷ l) = insert_by lt x (sort_by lt l)

  -- No element is less than one before it.
  abbrev pub IsSorted : (A → A → Bool) → List A → Type 0
  IsSorted lt [] = Unit {0}
  IsSorted lt (x ∷ l) = All (λ y. lt y x ≡ false) l × IsSorted lt l

  -- "Less than" is the strict part of a total order: an element below `x` is below `y` or `y` is
  -- below `x`, and not both ways round.
  pub record IsOrder (lt : A → A → Bool) : Type ℓ where
    pub split : (x y z : A) → lt z x ≡ true → lt y x ≡ false → lt z y ≡ true
    pub asym : (x y : A) → lt x y ≡ true → lt y x ≡ false

  pub insert_by-All {κ} :
      (P : A → Type κ) (lt : A → A → Bool) (x : A) (l : List A)
      → P x
      → All P l
      → All P (insert_by lt x l)
  unfolding insert_by
  insert_by-All P lt x [] p h = (p, tt)
  insert_by-All P lt x (y ∷ l) p h = elim (Bool-cases (lt y x)) [
    | inl e ↦ rw e (h.0, insert_by-All P lt x l p h.1)
    | inr e ↦ rw e (p, h)
  ]

  pub sort_by-All {κ} :
      (P : A → Type κ) (lt : A → A → Bool) (l : List A) → All P l → All P (sort_by lt l)
  unfolding sort_by
  sort_by-All P lt [] h = tt
  sort_by-All P lt (x ∷ l) h = insert_by-All P lt x (sort_by lt l) h.0 (sort_by-All P lt l h.1)

  pub length-insert_by :
      (lt : A → A → Bool) (x : A) (l : List A) → length (insert_by lt x l) ≡ suc (length l)
  unfolding insert_by
  length-insert_by lt x [] = refl
  length-insert_by lt x (y ∷ l) = ground (arith, length-insert_by lt x l)

  pub length-sort_by : (lt : A → A → Bool) (l : List A) → length (sort_by lt l) ≡ length l
  unfolding sort_by
  length-sort_by lt [] = refl
  length-sort_by lt (x ∷ l) = length-insert_by lt x (sort_by lt l) ∙ ap suc (length-sort_by lt l)

module _ {ℓ} {A : Type ℓ} (lt : A → A → Bool) (o : IsOrder lt) where
  after_of_All :
      (x y : A) (l : List A)
      → lt y x ≡ false
      → All (λ z. lt z y ≡ false) l
      → All (λ z. lt z x ≡ false) l
  after_of_All x y [] h a = tt
  after_of_All x y (z ∷ l) h a = (below, after_of_All x y l h a.1)
    where
      below : lt z x ≡ false
      below = elim (Bool-cases (lt z x)) [ inl e ↦ cc (o.split x y z e h, a.0) | inr e ↦ e ]

  pub insert_by-IsSorted : (x : A) (l : List A) → IsSorted lt l → IsSorted lt (insert_by lt x l)
  unfolding insert_by
  insert_by-IsSorted x [] s = (tt, tt)
  insert_by-IsSorted x (y ∷ l) s = elim (Bool-cases (lt y x)) [
    | inl e ↦
        rw e (
          insert_by-All (λ z. lt z y ≡ false) lt x l (o.asym y x e) s.0,
          insert_by-IsSorted x l s.1,
        )
    | inr e ↦ rw e ((e, after_of_All x y l e s.0), s)
  ]

  pub sort_by-IsSorted : (l : List A) → IsSorted lt (sort_by lt l)
  unfolding sort_by
  sort_by-IsSorted [] = tt
  sort_by-IsSorted (x ∷ l) = insert_by-IsSorted x (sort_by lt l) (sort_by-IsSorted l)

  insert_first : (x : A) (l : List A) → All (λ z. lt z x ≡ false) l → insert_by lt x l ≡ x ∷ l
  unfolding insert_by
  insert_first x [] h = refl
  insert_first x (y ∷ l) h = rw (h.0) refl

  pub sort_by_of_IsSorted : (l : List A) → IsSorted lt l → sort_by lt l ≡ l
  unfolding sort_by
  sort_by_of_IsSorted [] s = refl
  sort_by_of_IsSorted (x ∷ l) s =
      ap (insert_by lt x) (sort_by_of_IsSorted l s.1) ∙ insert_first x l s.0

  keep-insert_by :
      (p : A → Bool) (x : A) (l : List A)
      → IsSorted lt l
      → keep p (insert_by lt x l) ≡ (if p x then insert_by lt x (keep p l) else keep p l)
  unfolding insert_by keep
  keep-insert_by p x [] s = ground arith
  keep-insert_by p x (y ∷ l) s = elim (Bool-cases (lt y x)) [
    | inl e ↦ rw e (ground (arith, keep-insert_by p x l s.1))
    | inr e ↦
        let rest =
          insert_first x (keep p (y ∷ l))
            (keep-All (λ z. lt z x ≡ false) p (y ∷ l) (e, after_of_All x y l e s.0)) in
        rw e (ground (arith, rest))
  ]

  -- Filtering a sorted list is sorting the filtered one.
  pub keep-sort_by : (p : A → Bool) (l : List A) → keep p (sort_by lt l) ≡ sort_by lt (keep p l)
  unfolding sort_by keep
  keep-sort_by p [] = refl
  keep-sort_by p (x ∷ l) =
      keep-insert_by p x (sort_by lt l) (sort_by-IsSorted l) ∙ ground (arith, keep-sort_by p l)

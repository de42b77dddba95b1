-- ===== src/Base/Text.antt =====
-- Go's strings, which are sequences of bytes: their equality and the order of `cmp.Compare`, and
-- the decimal form that `%d` prints.
use Prim.Native.Nat.{ℕ, zero, suc, ◌+◌, ◌/◌, ◌%◌}
use Prim.Native.Char.{code}
use Prim.Native.String.{String}
use mathlib.Core.Path.{◌≡◌, refl}
use mathlib.Core.Logic.{◌↔◌, inl, inr}
use mathlib.Core.Bool.{Bool, true, false, ◌&&◌}
use mathlib.Core.List.{List, [], ◌∷◌}
use native.Mathlib.Omega.{arith}
use nw_lb_go.Base.Tests.{ltb, ◌==◌, if◌then◌else◌, Bool-cases}

abbrev pub Str : Type 0
Str = List ℕ

-- The bytes of an ASCII literal.
abbrev pub codes : String → Str
codes String.[] = []
codes (String.◌∷◌ c s) = code c ∷ codes s

unfoldable pub str_eq : Str → Str → Bool
str_eq [] [] = true
str_eq (x ∷ xs) (y ∷ ys) = x == y && str_eq xs ys
str_eq _ _ = false

pub str_eq_refl : (s : Str) → str_eq s s ≡ true
unfolding str_eq
str_eq_refl [] = refl
str_eq_refl (x ∷ s) = ground (arith, str_eq_refl s)

pub str_eq→eq : (s t : Str) → str_eq s t ≡ true → s ≡ t
unfolding str_eq
str_eq→eq [] [] h = refl
str_eq→eq (x ∷ s) (y ∷ t) h = ground (arith, str_eq→eq s t)
str_eq→eq [] (y ∷ t) h = cc
str_eq→eq (x ∷ s) [] h = cc

pub str_eq_symm : (s t : Str) → str_eq s t ≡ false → str_eq t s ≡ false
str_eq_symm s t h = elim (Bool-cases (str_eq t s)) [
  | inl e ↦ cc (h, str_eq→eq t s e, str_eq_refl s)
  | inr e ↦ e
]

pub str_eq_iff : (s t : Str) → (str_eq s t ≡ true) ↔ (s ≡ t)
str_eq_iff s t = (str_eq→eq s t, λ e. subst_eq e)
  where
    subst_eq : s ≡ t → str_eq s t ≡ true
    subst_eq e = rw (← e) (str_eq_refl s)

-- `a < b`, byte by byte, a proper prefix first.
unfoldable pub str_lt : Str → Str → Bool
str_lt [] [] = false
str_lt [] (y ∷ ys) = true
str_lt (x ∷ xs) [] = false
str_lt (x ∷ xs) (y ∷ ys) = if x == y then str_lt xs ys else ltb x y

pub str_lt_irrefl : (s : Str) → str_lt s s ≡ false
unfolding str_lt
str_lt_irrefl [] = refl
str_lt_irrefl (x ∷ s) = ground (arith, str_lt_irrefl s)

pub str_lt_trans : (s t u : Str) → str_lt s t ≡ true → str_lt t u ≡ true → str_lt s u ≡ true
unfolding str_lt
str_lt_trans [] [] u p q = cc
str_lt_trans [] (y ∷ t) [] p q = cc
str_lt_trans [] (y ∷ t) (z ∷ u) p q = refl
str_lt_trans (x ∷ s) [] u p q = cc
str_lt_trans (x ∷ s) (y ∷ t) [] p q = cc
str_lt_trans (x ∷ s) (y ∷ t) (z ∷ u) p q = ground (arith, str_lt_trans s t u)

pub str_lt_total : (s t : Str) → str_eq s t ≡ false → str_lt s t ≡ false → str_lt t s ≡ true
unfolding str_lt str_eq
str_lt_total [] [] p q = cc
str_lt_total [] (y ∷ t) p q = cc
str_lt_total (x ∷ s) [] p q = refl
str_lt_total (x ∷ s) (y ∷ t) p q = ground (arith, str_lt_total s t)

-- The digits of `n`, the last one first, at most `fuel` of them.
decimal_rev : ℕ → ℕ → Str
decimal_rev zero n = []
decimal_rev (suc fuel) n =
    let rest = decimal_rev fuel (n / 10) in (48 + n % 10) ∷ (if ltb n 10 then [] else rest)

reverse_onto : Str → Str → Str
reverse_onto [] acc = acc
reverse_onto (x ∷ xs) acc = reverse_onto xs (x ∷ acc)

-- `fmt.Sprintf("%d", n)`: `n` has at most `suc n` digits.
unfoldable pub decimal : ℕ → Str
unfolding decimal_rev reverse_onto
decimal n = reverse_onto (decimal_rev (suc n) n) []

decimal_test : decimal 1207 ≡ codes "1207"
unfolding decimal
decimal_test = refl

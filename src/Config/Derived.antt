-- ===== src/Config/Derived.antt =====
-- internal/config/config.go: `burstFor` and `applyDerivedDefaults`.
use nw_lb_go.Base.{
  ℕ, zero, suc, ◌+◌, ◌*◌, ◌/◌, ◌≤◌, ◌<◌, ◌≡◌, refl, ℤ, pos, negsuc, pos_part, ltb, leb, Bool, true,
  false, if◌then◌else◌, List, [], ◌∷◌, arith, ◌%◌, ◌⊎◌, inl, inr, Bool-cases,
}
use native.Mathlib.Nat.{mul-le-mul_left, div-add-mod, mod-lt}
use nw_lb_go.Config.Text.{trim_space}
use nw_lb_go.Config.Types.{
  Float, nan, infinity, decimal, Backend, RateLimit, Config, default_weight,
}

abbrev pub max_int32 : ℕ
max_int32 = 2_147_483_647

-- `math.Ceil(2 * rps)` is below 1 exactly for a rate that is not positive.
unfoldable pub burst_for : Float → ℤ
burst_for nan = pos 1
burst_for (infinity true) = pos max_int32
burst_for (infinity false) = pos 1
burst_for (decimal (negsuc n) d) = pos 1
burst_for (decimal (pos n) d) =
    let v = (2 * n + d) / suc d in
    if ltb v 1 then pos 1 else if ltb max_int32 v then pos max_int32 else pos v

abbrev pub is_zero : ℤ → Bool
is_zero (pos n) = leb n 0
is_zero (negsuc n) = false

unfoldable pub derive_backend : Backend → Backend
derive_backend b = record {
  id = trim_space b.id;
  addr = trim_space b.addr;
  weight = if is_zero b.weight then default_weight else b.weight;
}

unfoldable pub derive_backends : List Backend → List Backend
derive_backends [] = []
derive_backends (b ∷ bs) = derive_backend b ∷ derive_backends bs

unfoldable pub derive_limit : RateLimit → RateLimit
unfolding burst_for
derive_limit r = record r {
  burst = if is_zero r.burst then burst_for r.rps else r.burst;
  per_client_burst =
      if is_zero r.per_client_burst then burst_for r.per_client_rps else r.per_client_burst;
}

unfoldable pub apply_derived_defaults : Config → Config
unfolding derive_limit derive_backends derive_backend
apply_derived_defaults c = record c {
  backends = derive_backends c.backends;
  rate_limit = derive_limit c.rate_limit;
}

positive : (v : ℕ) → ltb (suc v) 1 ≡ false
positive v = ground arith

clamped :
    (v n d r : ℕ)
    → suc d * v + r ≡ 2 * n + d
    → r < suc d
    → let w =
        pos_part (if ltb v 1 then pos 1 else if ltb max_int32 v then pos max_int32 else pos v) in
      (1 ≤ w)
      × (w ≤ max_int32)
      × ((w ≡ max_int32) ⊎ (2 * n ≤ suc d * w))
      × ((w ≡ 1) ⊎ (suc d * w < 2 * n + suc d))
clamped zero n d r e small = (omega arith, omega arith, inr (omega arith), inl refl)
clamped (suc v) n d r e small = elim (Bool-cases (ltb max_int32 (suc v))) [
  | inl large ↦
      let below : suc d * max_int32 ≤ suc d * suc v = mul-le-mul_left (suc d) (ground arith) in
      rw (positive v, large) (omega arith, omega arith, inl refl, inr (omega (arith, below)))
  | inr fits ↦
      rw (positive v, fits) (omega arith, ground arith, inr (omega arith), inr (omega arith))
]

-- A burst fits an int32 and is at least 1; and for a rate n / (d + 1), unless it is cut off at the
-- largest int32, it lets through the requests of two seconds, and less than one more if it is above 1.
pub burst_for_bounds :
    (n d : ℕ)
    → let w = pos_part (burst_for (decimal (pos n) d)) in
      (1 ≤ w)
      × (w ≤ max_int32)
      × ((w ≡ max_int32) ⊎ (2 * n ≤ suc d * w))
      × ((w ≡ 1) ⊎ (suc d * w < 2 * n + suc d))
unfolding burst_for
burst_for_bounds n d =
    clamped ((2 * n + d) / suc d) n d ((2 * n + d) % suc d) (div-add-mod (2 * n + d) (suc d))
      (mod-lt (2 * n + d) (omega arith))

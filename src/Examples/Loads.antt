-- ===== src/Examples/Loads.antt =====
-- internal/config/config.go: `Load` on a file that names one backend without a weight.
use nw_lb_go.Base.{
  ◌↔◌, ℕ, ◌+◌, ◌-◌, ◌≡◌, refl, ap, ◌∙◌, false, ℤ, pos, negsuc, List, [], ◌∷◌, Option, none, some,
  inl, Str, str_eq, codes, arith,
}
use nw_lb_go.Config.Types.{Float, Backend}
use nw_lb_go.Config.Text.{is_space, trim_left, trim_right, trim_space}
use nw_lb_go.Config.Default.{default}
use nw_lb_go.Config.Env.{IsBlank}
use nw_lb_go.Config.Derived.{derive_backends, derive_backend}
use nw_lb_go.Config.Valid.{AreUsable, IsValid}
use nw_lb_go.Config.Raw.{RawConfig}
use nw_lb_go.Config.Load.{load, loaded, load-IsValid, load_backends}

-- A way to write a duration: its sign, and one symbol for its size.
abbrev written : ℤ → Str
written (pos n) = (n + 33) ∷ []
written (negsuc n) = 45 ∷ (n + 33) ∷ []

abbrev read : Str → Option ℤ
read (c ∷ []) = some (pos (c - 33))
read (m ∷ c ∷ []) = some (negsuc (c - 33))
read _ = none

symbol : (n : ℕ) → is_space (n + 33) ≡ false
symbol n = ground arith

back : (n : ℕ) → n + 33 - 33 ≡ n
back n = omega arith

one_symbol : (n : ℕ) → trim_right ((n + 33) ∷ []) ≡ (n + 33) ∷ []
unfolding trim_right
one_symbol n = rw (symbol n) refl

reads_back : (d : ℤ) → read (trim_space (written d)) ≡ some d
unfolding trim_space trim_left trim_right
reads_back (pos n) = rw (symbol n, symbol n, back n) refl
reads_back (negsuc n) =
    ap (λ s. read (elim s [ [] ↦ 45 ∷ [] | d ∷ t ↦ 45 ∷ d ∷ t ])) (one_symbol n)
    ∙ ap (λ k. some (negsuc k)) (back n)

abbrev no_float : Str → Option Float
no_float s = none

abbrev unset : Str → Option Str
unset key = none

unset-IsBlank : (key : Str) → IsBlank no_float unset key
unset-IsBlank key = inl refl

abbrev one : List Backend
one = record { id = codes "a"; addr = codes "h:1"; weight = pos 0 } ∷ []

abbrev sets_one : RawConfig → Option RawConfig
sets_one raw = some (record raw { backends = one })

one-AreUsable : AreUsable (derive_backends one)
unfolding derive_backends derive_backend str_eq trim_space trim_left trim_right
one-AreUsable = record {
  some_backend = omega arith;
  ids_named = (refl, tt);
  ids_distinct = (tt, tt);
  addrs_named = (refl, tt);
  addrs_distinct = (tt, tt);
  weights_pos = (omega arith, tt);
}

load_backends_example :
    (load written read no_float unset (codes "lb.yaml") (some sets_one)
      ≡ loaded (record default { backends = derive_backends one }))
    ↔ AreUsable (derive_backends one)
unfolding str_eq trim_space trim_left trim_right
load_backends_example =
    load_backends written read no_float unset reads_back (codes "lb.yaml") one refl unset-IsBlank

load-IsValid_example : IsValid (record default { backends = derive_backends one })
unfolding str_eq trim_space trim_left trim_right
load-IsValid_example =
    load-IsValid written read no_float unset (codes "lb.yaml") (some sets_one)
      (record default { backends = derive_backends one })
      ((load_backends written read no_float unset reads_back (codes "lb.yaml") one refl
          unset-IsBlank).1
        one-AreUsable)

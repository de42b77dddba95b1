-- ===== src/Examples/Calls.antt =====
-- internal/middleware on concrete interceptors and breakers.
use nw_lb_go.Base.{
  ℕ, ◌+◌, ◌*◌, ◌≡◌, ◌↔◌, refl, pos, leb_ℤ, true, false, List, [], ◌∷◌, Option, none, some,
}
use nw_lb_go.Circuit.Types.{state_open, state_closed}
use nw_lb_go.Middleware.Guard.{panicked, settle}
use nw_lb_go.Middleware.Exits.{is_bad, settle_verdict}
use nw_lb_go.Examples.Breakers.{half_opened, of_episode, probing-half_open, half_opened-belongs}

-- Two interceptors that do not commute, and a nil one between them.
abbrev two_and_nil : List (Option (ℕ → ℕ))
two_and_nil = some (λ n. n + 1) ∷ none ∷ some (λ n. n * 2) ∷ []

settle_verdict_example :
    (((settle half_opened of_episode panicked 120).0.state ≡ state_open) ↔ (is_bad panicked ≡ true))
    × (((settle half_opened of_episode panicked 120).0.state ≡ state_closed) ↔ (
        (is_bad panicked ≡ false)
        × (leb_ℤ half_opened.settings.half_open_max (pos (half_opened.successes + 1)) ≡ true)))
settle_verdict_example =
    settle_verdict half_opened of_episode panicked 120 refl probing-half_open half_opened-belongs

-- ===== src/Config/Validate.antt =====
-- internal/config/config.go: `Validate`. A problem is one of the errors that it joins; the texts of
-- the messages are left out, but for what they name.
use nw_lb_go.Base.{
  ℕ, ◌+◌, pos, leb_ℤ, ltb_ℤ, Bool, true, false, not, ◌||◌, ◌&&◌, if◌then◌else◌, List, [], ◌∷◌, ◌++◌,
  Option, none, some, Str, str_eq, codes,
}
use nw_lb_go.Config.Text.{trim_space, to_lower}
use nw_lb_go.Config.Types.{
  above_zero, at_most_one, below_zero, above_one, Backend, Config, Routing, Health, RateLimit,
  CircuitBreaker, Logging, Proxy, retry_connect_failure, retry_unavailable, retry_none,
}

pub data Problem : Type 0 where
  listen_empty admin_listen_empty no_backends : Problem
  id_empty addr_empty bad_weight : ℕ → Problem
  id_duplicate addr_duplicate : ℕ → ℕ → Problem
  retry_policy_unknown bad_virtual_nodes bad_max_attempts : Problem
  bad_interval bad_timeout bad_rise bad_fall : Problem
  bad_rps bad_burst bad_per_client_rps bad_per_client_burst : Problem
  bad_window bad_buckets bad_min_requests bad_failure_ratio bad_open_timeout bad_half_open_max :
      Problem
  bad_level bad_format bad_sample_rate : Problem
  bad_max_recv bad_max_send bad_shutdown_grace : Problem

-- `if test { errs = append(errs, problem) }`, one after the other.
unfoldable pub reported : List (Bool × Problem) → List Problem
reported [] = []
reported ((bad, p) ∷ checks) = let rest = reported checks in if bad then p ∷ rest else rest

-- The maps `ids` and `addrs`, from a string to the first position that used it.
unfoldable pub first_use : Str → List (Str × ℕ) → Option ℕ
first_use s [] = none
first_use s ((t, i) ∷ m) = if str_eq t s then some i else first_use s m

-- One of the two switches of the loop over the backends.
unfoldable pub check_name :
    Problem → (ℕ → Problem) → ℕ → Str → List (Str × ℕ) → List Problem × List (Str × ℕ)
unfolding first_use
check_name empty duplicate i s seen =
    if str_eq s [] then (empty ∷ [], seen) else elim (first_use s seen) [
      | some first ↦ (duplicate first ∷ [], seen)
      | none ↦ ([], (s, i) ∷ seen)
    ]

-- The loop, from the `i`-th backend on.
unfoldable pub check_backends : ℕ → List (Str × ℕ) → List (Str × ℕ) → List Backend → List Problem
unfolding check_name
check_backends i ids addrs [] = []
check_backends i ids addrs (b ∷ bs) =
    let (id_errs, ids') = check_name (id_empty i) (id_duplicate i) i b.id ids in
    let (addr_errs, addrs') = check_name (addr_empty i) (addr_duplicate i) i b.addr addrs in
    let weight_errs = if leb_ℤ b.weight (pos 0) then bad_weight i ∷ [] else [] in
    id_errs ++ (addr_errs ++ (weight_errs ++ check_backends (i + 1) ids' addrs' bs))

-- The cases of a switch over strings.
abbrev pub one_of : List Str → Str → Bool
one_of [] s = false
one_of (w ∷ ws) s = str_eq s w || one_of ws s

abbrev pub is_empty : List Backend → Bool
is_empty [] = true
is_empty (b ∷ bs) = false

abbrev pub policies : List Str
policies = retry_connect_failure ∷ retry_unavailable ∷ retry_none ∷ []

abbrev pub levels : List Str
levels = codes "debug" ∷ codes "info" ∷ codes "warn" ∷ codes "error" ∷ []

abbrev pub formats : List Str
formats = codes "json" ∷ codes "text" ∷ []

unfoldable pub listen_checks : Config → List (Bool × Problem)
listen_checks c =
    (str_eq (trim_space c.listen) [], listen_empty)
    ∷ (str_eq (trim_space c.admin_listen) [], admin_listen_empty)
    ∷ (is_empty c.backends, no_backends)
    ∷ []

unfoldable pub routing_checks : Routing → Health → List (Bool × Problem)
routing_checks r h =
    (not (one_of policies r.retry_policy), retry_policy_unknown)
    ∷ (leb_ℤ r.virtual_nodes (pos 0), bad_virtual_nodes)
    ∷ (ltb_ℤ r.max_attempts (pos 1), bad_max_attempts)
    ∷ (leb_ℤ h.interval (pos 0), bad_interval)
    ∷ (leb_ℤ h.timeout (pos 0), bad_timeout)
    ∷ (ltb_ℤ h.rise (pos 1), bad_rise)
    ∷ (ltb_ℤ h.fall (pos 1), bad_fall)
    ∷ []

unfoldable pub limit_checks : RateLimit → List (Bool × Problem)
limit_checks r =
    (r.enabled && not (above_zero r.rps), bad_rps)
    ∷ (r.enabled && ltb_ℤ r.burst (pos 1), bad_burst)
    ∷ (r.enabled && r.per_client && not (above_zero r.per_client_rps), bad_per_client_rps)
    ∷ (r.enabled && r.per_client && ltb_ℤ r.per_client_burst (pos 1), bad_per_client_burst)
    ∷ []

unfoldable pub breaker_checks : CircuitBreaker → List (Bool × Problem)
breaker_checks b =
    (leb_ℤ b.window (pos 0), bad_window)
    ∷ (ltb_ℤ b.buckets (pos 1), bad_buckets)
    ∷ (ltb_ℤ b.min_requests (pos 1), bad_min_requests)
    ∷ (not (above_zero b.failure_ratio && at_most_one b.failure_ratio), bad_failure_ratio)
    ∷ (leb_ℤ b.open_timeout (pos 0), bad_open_timeout)
    ∷ (ltb_ℤ b.half_open_max (pos 1), bad_half_open_max)
    ∷ []

unfoldable pub output_checks : Logging → Proxy → List (Bool × Problem)
output_checks l p =
    (not (one_of levels (to_lower l.level)), bad_level)
    ∷ (not (one_of formats (to_lower l.format)), bad_format)
    ∷ (below_zero l.sample_rate || above_one l.sample_rate, bad_sample_rate)
    ∷ (leb_ℤ p.max_recv_msg_size (pos 0), bad_max_recv)
    ∷ (leb_ℤ p.max_send_msg_size (pos 0), bad_max_send)
    ∷ (leb_ℤ p.shutdown_grace (pos 0), bad_shutdown_grace)
    ∷ []

-- No error is the empty list.
unfoldable pub validate : Config → List Problem
unfolding reported
validate c =
    reported (listen_checks c)
    ++ (check_backends 0 [] [] c.backends
        ++ (reported (routing_checks c.routing c.health)
            ++ (reported (limit_checks c.rate_limit)
                ++ (reported (breaker_checks c.circuit_breaker)
                    ++ reported (output_checks c.logging c.proxy)))))

-- The levels of `slog`.
pub data Level : Type 0 where
  level_debug level_info level_warn level_error : Level

unfoldable pub slog_level : Logging → Level
slog_level l =
    let name = to_lower (trim_space l.level) in
    if str_eq name (codes "debug")
    then level_debug
    else if one_of (codes "warn" ∷ codes "warning" ∷ []) name
    then level_warn
    else if str_eq name (codes "error")
    then level_error
    else level_info

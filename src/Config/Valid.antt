-- ===== src/Config/Valid.antt =====
-- internal/config/config.go: what `Validate` accepts.
use nw_lb_go.Base.{
  ◌<◌, ◌≡◌, refl, ap, ◌↔◌, ◌⊎◌, inl, inr, ℤ, pos, negsuc, suc, leb, ◌||◌, pos_part, leb_ℤ, ltb_ℤ,
  Bool, true, false, not, List, [], ◌∷◌, length, none, Str, str_eq, All, Bool-cases, arith,
}
use nw_lb_go.Config.Text.{trim_space, to_lower}
use nw_lb_go.Config.Types.{
  Float, nan, infinity, decimal, above_zero, at_most_one, below_zero, above_one, Backend, Config,
  Routing, Health, RateLimit, CircuitBreaker, Logging, Proxy,
}
use nw_lb_go.Config.Names.{Distinct, ids_of, addrs_of}
use nw_lb_go.Config.Validate.{
  Problem, reported, first_use, one_of, is_empty, policies, levels, formats, routing_checks,
  limit_checks, breaker_checks, output_checks,
}

abbrev pub NonEmpty : Str → Type 0
NonEmpty s = str_eq s [] ≡ false

-- At least one backend, each with an id, an address and a positive weight, and no two with the same id
-- or the same address.
pub record AreUsable (bs : List Backend) : Type 0 where
  pub some_backend : 0 < length bs
  pub ids_named : All NonEmpty (ids_of bs)
  pub ids_distinct : Distinct (ids_of bs)
  pub addrs_named : All NonEmpty (addrs_of bs)
  pub addrs_distinct : Distinct (addrs_of bs)
  pub weights_pos : All (λ (b : Backend). 0 < pos_part b.weight) bs

pub record IsRoutable (r : Routing) (h : Health) : Type 0 where
  pub policy_known : one_of policies r.retry_policy ≡ true
  pub virtual_nodes_pos : 0 < pos_part r.virtual_nodes
  pub max_attempts_pos : 0 < pos_part r.max_attempts
  pub interval_pos : 0 < pos_part h.interval
  pub timeout_pos : 0 < pos_part h.timeout
  pub rise_pos : 0 < pos_part h.rise
  pub fall_pos : 0 < pos_part h.fall

-- A limit that is switched on has a positive rate and burst.
abbrev pub IsLimit : RateLimit → Type 0
IsLimit r =
    (r.enabled ≡ false)
    ⊎ ((above_zero r.rps ≡ true)
        × (0 < pos_part r.burst)
        × ((r.per_client ≡ false)
            ⊎ ((above_zero r.per_client_rps ≡ true) × (0 < pos_part r.per_client_burst))))

pub record IsBreaker (b : CircuitBreaker) : Type 0 where
  pub window_pos : 0 < pos_part b.window
  pub buckets_pos : 0 < pos_part b.buckets
  pub min_requests_pos : 0 < pos_part b.min_requests
  pub ratio_pos : above_zero b.failure_ratio ≡ true
  pub ratio_le : at_most_one b.failure_ratio ≡ true
  pub open_timeout_pos : 0 < pos_part b.open_timeout
  pub half_open_max_pos : 0 < pos_part b.half_open_max

-- A number of [0, 1].
abbrev pub in_unit : Float → Bool
in_unit (decimal (pos n) d) = leb n (suc d)
in_unit _ = false

-- The code's tests `< 0` and `> 1` let NaN through as a sample rate.
pub record IsOutput (l : Logging) (p : Proxy) : Type 0 where
  pub level_known : one_of levels (to_lower l.level) ≡ true
  pub format_known : one_of formats (to_lower l.format) ≡ true
  pub rate_ok : (l.sample_rate ≡ nan) ⊎ (in_unit l.sample_rate ≡ true)
  pub max_recv_pos : 0 < pos_part p.max_recv_msg_size
  pub max_send_pos : 0 < pos_part p.max_send_msg_size
  pub grace_pos : 0 < pos_part p.shutdown_grace

pub record IsValid (c : Config) : Type 0 where
  pub listens : NonEmpty (trim_space c.listen)
  pub admin_listens : NonEmpty (trim_space c.admin_listen)
  pub usable : AreUsable c.backends
  pub routable : IsRoutable c.routing c.health
  pub limited : IsLimit c.rate_limit
  pub broken : IsBreaker c.circuit_breaker
  pub output : IsOutput c.logging c.proxy

abbrev pub Passes : List (Bool × Problem) → Type 0
Passes checks = All (λ (k : Bool × Problem). k.0 ≡ false) checks

pub reported-Passes : (l : List (Bool × Problem)) → reported l ≡ [] → Passes l
unfolding reported
reported-Passes [] h = tt
reported-Passes ((bad, p) ∷ l) h = elim (Bool-cases bad) [
  | inl e ↦ cc (rw e at h)
  | inr e ↦ (e, reported-Passes l (rw e at h))
]

pub reported_of_Passes : (l : List (Bool × Problem)) → Passes l → reported l ≡ []
unfolding reported
reported_of_Passes [] h = refl
reported_of_Passes ((bad, p) ∷ l) h = rw (h.0) (reported_of_Passes l h.1)

pub nothing_used :
    (xs : List Str)
    → All NonEmpty xs
    → All (λ s. (str_eq s [] ≡ false) × (first_use s [] ≡ none)) xs
unfolding first_use
nothing_used [] a = tt
nothing_used (x ∷ xs) a = ((a.0, refl), nothing_used xs a.1)

pub named_of_All :
    (xs : List Str)
    → All (λ s. (str_eq s [] ≡ false) × (first_use s [] ≡ none)) xs
    → All NonEmpty xs
named_of_All [] a = tt
named_of_All (x ∷ xs) a = ((a.0).0, named_of_All xs a.1)

pub weights_pos_of :
    (bs : List Backend)
    → All (λ (b : Backend). leb_ℤ b.weight (pos 0) ≡ false) bs
    → All (λ (b : Backend). 0 < pos_part b.weight) bs
weights_pos_of [] a = tt
weights_pos_of (b ∷ bs) a = (ground (arith, a.0), weights_pos_of bs a.1)

pub weights_ok :
    (bs : List Backend)
    → All (λ (b : Backend). 0 < pos_part b.weight) bs
    → All (λ (b : Backend). leb_ℤ b.weight (pos 0) ≡ false) bs
weights_ok [] a = tt
weights_ok (b ∷ bs) a = (ground (arith, a.0), weights_ok bs a.1)

pub some_backend_of : (bs : List Backend) → is_empty bs ≡ false → 0 < length bs
some_backend_of [] h = cc
some_backend_of (b ∷ bs) h = omega arith

pub not_empty : (bs : List Backend) → 0 < length bs → is_empty bs ≡ false
not_empty [] h = elim h [ ]
not_empty (b ∷ bs) h = refl

above : (z : ℤ) → 0 < pos_part z → leb_ℤ z (pos 0) ≡ false
above z h = ground arith

at_least : (z : ℤ) → 0 < pos_part z → ltb_ℤ z (pos 1) ≡ false
at_least z h = ground arith

pos_of_above : (z : ℤ) → leb_ℤ z (pos 0) ≡ false → 0 < pos_part z
pos_of_above z h = ground arith

pos_of_at_least : (z : ℤ) → ltb_ℤ z (pos 1) ≡ false → 0 < pos_part z
pos_of_at_least z h = ground arith

of_not : (b : Bool) → not b ≡ false → b ≡ true
of_not true h = refl
of_not false h = cc

pub routing_checks_pass : (r : Routing) (h : Health) → Passes (routing_checks r h) ↔ IsRoutable r h
unfolding routing_checks
routing_checks_pass r h = (
  λ (a, (b, (c, (d, (e, (f, (g, _))))))). record {
    policy_known = of_not (one_of policies r.retry_policy) a;
    virtual_nodes_pos = pos_of_above r.virtual_nodes b;
    max_attempts_pos = pos_of_at_least r.max_attempts c;
    interval_pos = pos_of_above h.interval d;
    timeout_pos = pos_of_above h.timeout e;
    rise_pos = pos_of_at_least h.rise f;
    fall_pos = pos_of_at_least h.fall g;
  },
  λ v. (
    ap not v.policy_known,
    (
      above r.virtual_nodes v.virtual_nodes_pos,
      (
        at_least r.max_attempts v.max_attempts_pos,
        (
          above h.interval v.interval_pos,
          (
            above h.timeout v.timeout_pos,
            (at_least h.rise v.rise_pos, (at_least h.fall v.fall_pos, tt)),
          ),
        ),
      ),
    ),
  ),
)

pub limit_checks_pass : (r : RateLimit) → Passes (limit_checks r) ↔ IsLimit r
unfolding limit_checks
limit_checks_pass r = (λ a. ground arith, λ v. ground arith)

pub breaker_checks_pass : (b : CircuitBreaker) → Passes (breaker_checks b) ↔ IsBreaker b
unfolding breaker_checks
breaker_checks_pass b = (
  λ (w, (k, (m, (f, (o, (h, _)))))). record {
    window_pos = pos_of_above b.window w;
    buckets_pos = pos_of_at_least b.buckets k;
    min_requests_pos = pos_of_at_least b.min_requests m;
    ratio_pos = ground (arith, f);
    ratio_le = ground (arith, f);
    open_timeout_pos = pos_of_above b.open_timeout o;
    half_open_max_pos = pos_of_at_least b.half_open_max h;
  },
  λ v. (
    above b.window v.window_pos,
    (
      at_least b.buckets v.buckets_pos,
      (
        at_least b.min_requests v.min_requests_pos,
        (
          rw (v.ratio_pos, v.ratio_le) refl,
          (
            above b.open_timeout v.open_timeout_pos,
            (at_least b.half_open_max v.half_open_max_pos, tt),
          ),
        ),
      ),
    ),
  ),
)

rate_passes :
    (x : Float) → ((below_zero x || above_one x) ≡ false) ↔ ((x ≡ nan) ⊎ (in_unit x ≡ true))
rate_passes nan = (λ h. inl refl, λ h. refl)
rate_passes (infinity true) = (λ h. cc, λ h. elim h [ inl e ↦ cc | inr e ↦ cc ])
rate_passes (infinity false) = (λ h. cc, λ h. elim h [ inl e ↦ cc | inr e ↦ cc ])
rate_passes (decimal (pos n) d) =
    (λ h. inr (ground arith), λ h. elim h [ inl e ↦ cc | inr e ↦ ground arith ])
rate_passes (decimal (negsuc n) d) =
    (λ h. absurd (ground arith), λ h. elim h [ inl e ↦ cc | inr e ↦ cc ])

pub output_checks_pass : (l : Logging) (p : Proxy) → Passes (output_checks l p) ↔ IsOutput l p
unfolding output_checks
output_checks_pass l p = (
  λ (a, (f, (s, (r, (d, (g, _)))))). record {
    level_known = of_not (one_of levels (to_lower l.level)) a;
    format_known = of_not (one_of formats (to_lower l.format)) f;
    rate_ok = (rate_passes l.sample_rate).0 s;
    max_recv_pos = pos_of_above p.max_recv_msg_size r;
    max_send_pos = pos_of_above p.max_send_msg_size d;
    grace_pos = pos_of_above p.shutdown_grace g;
  },
  λ v. (
    ap not v.level_known,
    (
      ap not v.format_known,
      (
        (rate_passes l.sample_rate).1 v.rate_ok,
        (
          above p.max_recv_msg_size v.max_recv_pos,
          (above p.max_send_msg_size v.max_send_pos, (above p.shutdown_grace v.grace_pos, tt)),
        ),
      ),
    ),
  ),
)

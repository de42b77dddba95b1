-- ===== src/Config/Accepts.antt =====
-- internal/config/config.go: `Validate` as a whole, and what `Default` lacks.
use nw_lb_go.Base.{inr, ◌≡◌, refl, ◌↔◌, false, List, [], ◌++◌, str_eq, inl, arith}
use nw_lb_go.Config.Text.{trim_space, to_lower}
use nw_lb_go.Config.Types.{Backend, Config}
use nw_lb_go.Config.Default.{default}
use nw_lb_go.Config.Names.{
  append-empty, IsSound, check_backends-IsSound, check_backends_of_IsSound, ids_of, addrs_of,
}
use nw_lb_go.Config.Validate.{
  reported, check_backends, is_empty, listen_checks, routing_checks, limit_checks, breaker_checks,
  output_checks, validate,
}
use nw_lb_go.Config.Valid.{
  AreUsable, IsValid, reported-Passes, reported_of_Passes, nothing_used, named_of_All,
  weights_pos_of, weights_ok, some_backend_of, not_empty, routing_checks_pass, limit_checks_pass,
  breaker_checks_pass, output_checks_pass,
}

usable : (bs : List Backend) → is_empty bs ≡ false → IsSound [] [] bs → AreUsable bs
usable bs e v = record {
  some_backend = some_backend_of bs e;
  ids_named = named_of_All (ids_of bs) v.good_ids.0;
  ids_distinct = v.good_ids.1;
  addrs_named = named_of_All (addrs_of bs) v.good_addrs.0;
  addrs_distinct = v.good_addrs.1;
  weights_pos = weights_pos_of bs v.good_weights;
}

sound : (bs : List Backend) → AreUsable bs → IsSound [] [] bs
sound bs v = record {
  good_ids = (nothing_used (ids_of bs) v.ids_named, v.ids_distinct);
  good_addrs = (nothing_used (addrs_of bs) v.addrs_named, v.addrs_distinct);
  good_weights = weights_ok bs v.weights_pos;
}

validate-IsValid : (c : Config) → validate c ≡ [] → IsValid c
unfolding validate listen_checks
validate-IsValid c h =
    let listen = reported (listen_checks c) in
    let names = check_backends 0 [] [] c.backends in
    let routing = reported (routing_checks c.routing c.health) in
    let limit = reported (limit_checks c.rate_limit) in
    let breaker = reported (breaker_checks c.circuit_breaker) in
    let output = reported (output_checks c.logging c.proxy) in
    let h1 = append-empty listen (names ++ (routing ++ (limit ++ (breaker ++ output)))) h in
    let h2 = append-empty names (routing ++ (limit ++ (breaker ++ output))) h1.1 in
    let h3 = append-empty routing (limit ++ (breaker ++ output)) h2.1 in
    let h4 = append-empty limit (breaker ++ output) h3.1 in
    let h5 = append-empty breaker output h4.1 in
    let heard = reported-Passes (listen_checks c) h1.0 in
    record {
      listens = heard.0;
      admin_listens = (heard.1).0;
      usable = usable c.backends ((heard.1).1).0 (check_backends-IsSound 0 [] [] c.backends h2.0);
      routable =
          (routing_checks_pass c.routing c.health).0
            (reported-Passes (routing_checks c.routing c.health) h3.0);
      limited =
          (limit_checks_pass c.rate_limit).0 (reported-Passes (limit_checks c.rate_limit) h4.0);
      broken =
          (breaker_checks_pass c.circuit_breaker).0
            (reported-Passes (breaker_checks c.circuit_breaker) h5.0);
      output =
          (output_checks_pass c.logging c.proxy).0
            (reported-Passes (output_checks c.logging c.proxy) h5.1);
    }

validate_of_IsValid : (c : Config) → IsValid c → validate c ≡ []
unfolding validate listen_checks
validate_of_IsValid c v =
    let heard =
      reported_of_Passes (listen_checks c)
        (v.listens, (v.admin_listens, (not_empty c.backends v.usable.some_backend, tt))) in
    rw
      (
        heard,
        check_backends_of_IsSound 0 [] [] c.backends (sound c.backends v.usable),
        reported_of_Passes (routing_checks c.routing c.health)
            ((routing_checks_pass c.routing c.health).1 v.routable),
        reported_of_Passes (limit_checks c.rate_limit)
            ((limit_checks_pass c.rate_limit).1 v.limited),
        reported_of_Passes (breaker_checks c.circuit_breaker)
            ((breaker_checks_pass c.circuit_breaker).1 v.broken),
        reported_of_Passes (output_checks c.logging c.proxy)
            ((output_checks_pass c.logging c.proxy).1 v.output),
      )
      refl

-- `Validate` reports no problem exactly for a valid configuration: both addresses given, at least one
-- backend, their ids and addresses given and all different, all weights positive, the retry policy, log
-- level and log format among those known, the sample rate within [0, 1] or not a number, the failure
-- ratio within (0, 1], every duration, threshold and size positive, and a positive rate and burst for
-- each limit that is switched on.
pub validate_iff : (c : Config) → (validate c ≡ []) ↔ IsValid c
validate_iff c = (validate-IsValid c, validate_of_IsValid c)

-- The defaults lack nothing but backends: with usable ones they are a valid configuration.
pub default-IsValid :
    (bs : List Backend) → AreUsable bs → validate (record default { backends = bs }) ≡ []
unfolding default trim_space to_lower str_eq
default-IsValid bs v =
    validate_of_IsValid (record default { backends = bs })
      (record {
        listens = refl;
        admin_listens = refl;
        usable = v;
        routable = record {
          policy_known = refl;
          virtual_nodes_pos = omega arith;
          max_attempts_pos = omega arith;
          interval_pos = omega arith;
          timeout_pos = omega arith;
          rise_pos = omega arith;
          fall_pos = omega arith;
        };
        limited = inl refl;
        broken = record {
          window_pos = omega arith;
          buckets_pos = omega arith;
          min_requests_pos = omega arith;
          ratio_pos = refl;
          ratio_le = refl;
          open_timeout_pos = omega arith;
          half_open_max_pos = omega arith;
        };
        output = record {
          level_known = refl;
          format_known = refl;
          rate_ok = inr refl;
          max_recv_pos = omega arith;
          max_send_pos = omega arith;
          grace_pos = omega arith;
        };
      })

-- ===== src/Examples/Exchanges.antt =====
-- internal/proxy on a call that is moved to a second backend.
use nw_lb_go.Base.{
  ℕ, ◌+◌, ◌≤◌, ◌≡◌, refl, true, false, if◌then◌else◌, List, [], ◌∷◌, ◌++◌, none, some, length,
  codes, arith, str_eq,
}
use nw_lb_go.Config.Types.{retry_unavailable}
use nw_lb_go.Middleware.Guard.{unavailable}
use nw_lb_go.Middleware.Request.{Context, tcp_addr, peer_ip}
use nw_lb_go.Proxy.Types.{Err, status_error, code_of, to_status, first_is, new_exchange}
use nw_lb_go.Proxy.Retry.{can_retry, is_unavailable, may_replay}
use nw_lb_go.Proxy.Exchange.{
  Call, opens, HeaderReply, header_is, forward_header, book_outcome, finish, set_stream, install,
}
use nw_lb_go.Proxy.System.{
  tries, relays, ends, judges, says, half_closes, hears, locks, sends, closes, Event, by_handler,
  by_pump, conclude, try_candidate, relay_failed, upstream_ended, send_message, send_header,
  relay_ends, judge, handler_step, taken, take_lock, hear, sent_to, pump_step, step, run, new_call,
}
use nw_lb_go.Proxy.Order.{InOrder, run-InOrder}
use nw_lb_go.Proxy.Output.{OnlyFrom, output}
use nw_lb_go.Proxy.Shown.{run-OnlyFrom}
use nw_lb_go.Base.{◌++◌}
use nw_lb_go.Proxy.Probes.{resolved, open_probe, reserved}
use nw_lb_go.Proxy.Tally.{Bounded, run-Bounded, returned_tried}
use nw_lb_go.Proxy.Bound.{rounds, to_go, rounds_bounded}
use nw_lb_go.Proxy.Forward.{
  forward_md, md_get, forwarded_for_header, refused, received_first, handle,
}
use nw_lb_go.Proxy.Forwarded.{stays_behind, values_under, forward_md_lem}

abbrev down : Err
down = status_error unavailable 9

abbrev plain_header : HeaderReply
plain_header = header_is true none

-- The first backend takes the request and is then unavailable; the second relays a message, while the
-- client sends a second one and closes.
abbrev moved : List Event
moved =
    by_handler (tries true opens)
    ∷ by_handler (ends (some down) plain_header plain_header)
    ∷ by_handler (judges false true plain_header)
    ∷ by_handler (tries true opens)
    ∷ by_pump (hears (says 8))
    ∷ by_pump locks
    ∷ by_handler (relays 20 plain_header none)
    ∷ by_pump (sends true)
    ∷ by_pump (hears half_closes)
    ∷ by_pump locks
    ∷ by_pump closes
    ∷ by_handler (ends none plain_header plain_header)
    ∷ []

abbrev call : Call
call = new_call (first_is 7)

moved_streams :
    (run retry_unavailable 2 moved call).streams
    ≡ record { candidate = 0; got = 7 ∷ []; closed = false }
      ∷ record { candidate = 1; got = 7 ∷ 8 ∷ []; closed = true }
      ∷ []
unfolding run step handler_step pump_step try_candidate install set_stream conclude relay_ends
    relay_failed upstream_ended book_outcome judge can_retry is_unavailable may_replay code_of
    str_eq hear take_lock taken send_header send_message sent_to forward_header finish new_call
    new_exchange to_status
moved_streams = refl

run-InOrder_example : InOrder (run retry_unavailable 2 moved call) 1
unfolding run step handler_step pump_step try_candidate install set_stream conclude relay_ends
    relay_failed upstream_ended book_outcome judge can_retry is_unavailable may_replay code_of
    str_eq hear take_lock taken send_header send_message sent_to forward_header finish new_call
    new_exchange to_status
run-InOrder_example = run-InOrder retry_unavailable 2 moved (first_is 7) 1 refl

run-OnlyFrom_example : (k : ℕ) × OnlyFrom k (output (run retry_unavailable 2 moved call))
run-OnlyFrom_example = run-OnlyFrom retry_unavailable 2 moved (first_is 7)

run-Bounded_example :
    let s = run retry_unavailable 2 moved call in
    (reserved retry_unavailable 2 moved call ≡ resolved s.book ++ open_probe s.handler)
    × Bounded retry_unavailable 2 s
run-Bounded_example = run-Bounded retry_unavailable 2 moved (first_is 7)

returned_tried_example : 1 ≤ (run retry_unavailable 2 moved call).attempts
unfolding run step handler_step pump_step try_candidate install set_stream conclude relay_ends
    relay_failed upstream_ended book_outcome judge can_retry is_unavailable may_replay code_of
    str_eq hear take_lock taken send_header send_message sent_to forward_header finish new_call
    new_exchange to_status
returned_tried_example =
    returned_tried retry_unavailable 2 moved (first_is 7) none (omega arith) refl

rounds_bounded_example :
    rounds retry_unavailable 2 moved call + to_go 2 (run retry_unavailable 2 moved call).handler
    ≤ 9 + length (run retry_unavailable 2 moved call).to_client
rounds_bounded_example = rounds_bounded retry_unavailable 2 moved (first_is 7)

-- A caller that came through another proxy.
abbrev through_proxy : Context
through_proxy = record {
  info = none;
  values = λ k. [];
  incoming =
      (codes "TE", codes "trailers" ∷ [])
      ∷ (codes "X-Forwarded-For", codes "10.0.0.1" ∷ [])
      ∷ (codes ":path", codes "/x" ∷ [])
      ∷ [];
  peer = some (tcp_addr (some (codes "10.0.0.2")));
}

forward_md_lem_example :
    let caller = if str_eq (peer_ip through_proxy) [] then [] else peer_ip through_proxy ∷ [] in
    md_get forwarded_for_header (forward_md through_proxy) ≡ (
      if stays_behind forwarded_for_header
      then []
      else values_under forwarded_for_header through_proxy.incoming
        ++ (if str_eq forwarded_for_header (codes "x-forwarded-for") then caller else []))
forward_md_lem_example = forward_md_lem through_proxy forwarded_for_header

-- A pool without a backend, and one with two.
handle_empty : handle true 0 (received_first (first_is 7)) ≡ refused (status_error unavailable 0)
unfolding handle
handle_empty = refl

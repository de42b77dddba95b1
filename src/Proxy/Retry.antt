-- ===== src/Proxy/Retry.antt =====
-- internal/proxy/proxy.go: `canRetry`.
use nw_lb_go.Base.{ℕ, ◌+◌, leb, Bool, true, false, not, ◌||◌, if◌then◌else◌, Str, str_eq}
use nw_lb_go.Config.Types.{retry_none, retry_unavailable}
use nw_lb_go.Middleware.Guard.{
  Code, unavailable, deadline_exceeded, internal, resource_exhausted, unknown, other_code,
}
use nw_lb_go.Proxy.Types.{Err, code_of, Exchange}

unfoldable pub is_unavailable : Code → Bool
is_unavailable unavailable = true
is_unavailable _ = false

-- The last switch. `time_left` is whether the caller has no deadline, or one that is not yet over.
unfoldable pub may_replay : Code → Bool → Bool
may_replay unavailable time_left = true
may_replay resource_exhausted time_left = true
may_replay deadline_exceeded time_left = time_left
may_replay internal time_left = false
may_replay unknown time_left = false
may_replay (other_code n) time_left = false

-- `ctx_ended` is `ctx.Err() != nil`; attempt `i` of `n` has failed.
unfoldable pub can_retry : Str → Exchange → Bool → Bool → Err → ℕ → ℕ → Bool → Bool
unfolding is_unavailable may_replay
can_retry policy e ctx_ended time_left err i n from_setup =
    if leb n (i + 1)
    then false
    else if e.sent_header || e.sent_msg
    then false
    else if ctx_ended
    then false
    else if e.committed
    then false
    else if str_eq policy retry_none
    then false
    else if from_setup
    then is_unavailable (code_of err)
    else if not (str_eq policy retry_unavailable)
    then false
    else may_replay (code_of err) time_left

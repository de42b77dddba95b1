-- ===== src/Proxy/Types.antt =====
-- internal/proxy/proxy.go: `Proxy`, the errors that a call can end with, and `exchange`. A message is a
-- number: bodies are moved as they are.
use nw_lb_go.Base.{
  ℕ, ℤ, pos, ltb_ℤ, Bool, true, false, if◌then◌else◌, List, [], ◌∷◌, Option, none, some, Str,
  str_eq,
}
use nw_lb_go.Config.Types.{Routing, retry_connect_failure}
use nw_lb_go.Middleware.Guard.{Code, unavailable, unknown}

pub record Proxy : Type 0 where
  pub hash_header : Str
  pub max_attempts : ℤ
  pub retry_policy : Str

unfoldable pub new : Routing → Proxy
new r = record {
  hash_header = r.hash_header;
  max_attempts = if ltb_ℤ r.max_attempts (pos 1) then pos 1 else r.max_attempts;
  retry_policy = if str_eq r.retry_policy [] then retry_connect_failure else r.retry_policy;
}

-- An error that carries a gRPC status, or any other; the number stands for its text.
pub data Err : Type 0 where
  status_error : Code → ℕ → Err
  plain_error : ℕ → Err

-- `status.Code` of an error.
unfoldable pub code_of : Err → Code
code_of (status_error c n) = c
code_of (plain_error n) = unknown

unfoldable pub to_status : Option Err → Option Err
to_status none = none
to_status (some (status_error c n)) = some (status_error c n)
to_status (some (plain_error n)) = some (status_error unknown n)

-- "no backends available".
abbrev pub no_backends : Err
no_backends = status_error unavailable 0

unfoldable pub or_unavailable : Option Err → Err
or_unavailable none = no_backends
or_unavailable (some e) = e

-- `exchange`, less what does not change in a call. `cs` is the number of the upstream stream.
pub record Exchange : Type 0 where
  pub first : ℕ
  pub have_first : Bool
  pub sent_header : Bool
  pub sent_msg : Bool
  pub upstream_done : Bool
  pub cs : Option ℕ
  pub pumping : Bool
  pub committed : Bool
  pub half_closed : Bool

-- What the first `RecvMsg` of `handle` gives, when it gives no error: a message, or the end.
pub data FirstMessage : Type 0 where
  first_is : ℕ → FirstMessage
  nothing_sent : FirstMessage

unfoldable pub new_exchange : FirstMessage → Exchange
new_exchange (first_is m) = record {
  first = m;
  have_first = true;
  sent_header = false;
  sent_msg = false;
  upstream_done = false;
  cs = none;
  pumping = false;
  committed = false;
  half_closed = false;
}
new_exchange nothing_sent = record {
  first = 0;
  have_first = false;
  sent_header = false;
  sent_msg = false;
  upstream_done = false;
  cs = none;
  pumping = false;
  committed = false;
  half_closed = true;
}

-- The messages that a new upstream stream is given before any other.
abbrev pub first_list : Exchange → List ℕ
first_list e = if e.have_first then e.first ∷ [] else []

-- ===== src/Proxy/System.antt =====
-- internal/proxy/proxy.go: `run` with `relay`, and `pump`, as steps of one call. A step is one thing that
-- the outside answers, with what the code does before it asks again; an event that does not fit where
-- its goroutine stands changes nothing.
use nw_lb_go.Base.{
  ℕ, suc, ◌+◌, leb, ◌==◌, Bool, true, false, not, ◌&&◌, if◌then◌else◌, List, [], ◌∷◌, Option, none,
  some, get_or, set, snoc, Str,
}
use nw_lb_go.Proxy.Types.{Err, to_status, or_unavailable, FirstMessage, new_exchange, first_list}
use nw_lb_go.Proxy.Retry.{can_retry}
use nw_lb_go.Proxy.Exchange.{
  Stream, Handler, attempt, relaying, judging, returned, Pump, not_started, receiving, received,
  sending, saw_end, saw_error, closing, stopped, crashed, released, Call, Opened, Installed,
  not_replayable, install_failed, installed, install, HeaderReply, header_error, header_is,
  forward_header, book_outcome, finish,
}

-- What the handler meets: `Reserve` and the opening of a stream; a message from upstream, with the
-- header and the error of sending it on; the end of the upstream stream, with an error or `io.EOF`, and
-- the header as `relay` and as `run` ask for it; the state of the caller's context.
pub data HandlerEvent : Type 0 where
  tries : (admitted : Bool) → Opened → HandlerEvent
  relays : (m : ℕ) → HeaderReply → Option Err → HandlerEvent
  ends : Option Err → HeaderReply → HeaderReply → HandlerEvent
  judges : (ctx_ended time_left : Bool) → HeaderReply → HandlerEvent

-- What the client's side of the stream gives: a message, the half-close, or an error.
pub data ClientSays : Type 0 where
  says : ℕ → ClientSays
  half_closes : ClientSays
  breaks : ClientSays

-- What the pump does: it receives from the client; it takes the mutex; `SendMsg` or `CloseSend` returns.
pub data PumpEvent : Type 0 where
  hears : ClientSays → PumpEvent
  locks : PumpEvent
  sends : (ok : Bool) → PumpEvent
  closes : PumpEvent

pub data Event : Type 0 where
  by_handler : HandlerEvent → Event
  by_pump : PumpEvent → Event

-- The branches of `run` after `install`.
unfoldable pub conclude : ℕ → Option Err → Call → Installed → Call
unfolding book_outcome
conclude i le t not_replayable = record t {
  book = snoc t.book (released i);
  handler = returned (to_status (some (or_unavailable le)));
}
conclude i le t (install_failed e) = record (book_outcome i (some e) t) {
  handler = judging i 0 e true;
}
conclude i le t (installed k) = record t { handler = relaying i k }

unfoldable pub try_candidate : ℕ → ℕ → Option Err → Bool → Opened → Call → Call
unfolding install conclude
try_candidate n i le admitted o s =
    if leb n i
    then record s { handler = returned (to_status (some (or_unavailable le))) }
    else if not admitted && not (i + 1 == n)
    then record s { handler = attempt (i + 1) le }
    else let r = install i o (record s { attempts = suc s.attempts }) in conclude i le r.0 r.1

-- `relay` returns an error, which `run` records.
unfoldable pub relay_failed : ℕ → ℕ → Err → Call → Call
unfolding book_outcome
relay_failed i k err s = record (book_outcome i (some err) s) { handler = judging i k err false }

unfoldable pub upstream_ended : Call → Call
upstream_ended s = record s { ex = record (s.ex) { upstream_done = true } }

unfoldable pub send_message : ℕ → ℕ → ℕ → Option Err → Call → Call
unfolding relay_failed
send_message i k m (some err) s = relay_failed i k err s
send_message i k m none s = record s {
  ex = record (s.ex) { sent_msg = true };
  to_client = snoc s.to_client (k, m);
}

-- The first message goes after the header.
unfoldable pub send_header : ℕ → ℕ → ℕ → HeaderReply → Option Err → Call → Call
unfolding send_message upstream_ended
send_header i k m (header_error err) f s = relay_failed i k err (upstream_ended s)
send_header i k m (header_is empty (some err)) f s = relay_failed i k err s
send_header i k m (header_is empty none) f s =
    send_message i k m f
      (record s { ex = record (s.ex) { sent_header = true }; headers = snoc s.headers k })

-- `relay` returns because `RecvMsg` failed.
unfoldable pub relay_ends : ℕ → ℕ → Option Err → HeaderReply → HeaderReply → Call → Call
unfolding relay_failed upstream_ended forward_header book_outcome finish
relay_ends i k (some err) h g s = relay_failed i k err (upstream_ended s)
relay_ends i k none h g s =
    finish k none g (book_outcome i none (forward_header k h (upstream_ended s)))

unfoldable pub judge : Str → ℕ → ℕ → ℕ → Err → Bool → Bool → Bool → HeaderReply → Call → Call
unfolding can_retry finish
judge policy n i k err from_setup ctx_ended time_left h s =
    if can_retry policy s.ex ctx_ended time_left err i n from_setup
    then record s { handler = attempt (i + 1) (some err) }
    else if from_setup
    then record s { handler = returned (to_status (some err)) }
    else finish k (some err) h s

unfoldable pub handler_step : Str → ℕ → HandlerEvent → Handler → Call → Call
unfolding try_candidate send_message send_header relay_ends judge
handler_step policy n (tries admitted o) (attempt i le) s = try_candidate n i le admitted o s
handler_step policy n (relays m h f) (relaying i k) s =
    if s.ex.sent_header then send_message i k m f s else send_header i k m h f s
handler_step policy n (ends r h g) (relaying i k) s = relay_ends i k r h g s
handler_step policy n (judges ctx_ended time_left h) (judging i k err from_setup) s =
    judge policy n i k err from_setup ctx_ended time_left h s
handler_step policy n _ _ s = s

-- The pump reads `e.cs` under the mutex and uses it after.
unfoldable pub taken : (ℕ → Pump) → Option ℕ → Pump
taken p none = crashed
taken p (some k) = p k

unfoldable pub take_lock : Pump → Call → Call
unfolding taken
take_lock (received m) s = record s {
  ex = record (s.ex) { committed = true };
  pump = taken (sending m) s.ex.cs;
}
take_lock saw_end s = record s {
  ex = record (s.ex) { half_closed = true };
  pump = taken closing s.ex.cs;
}
take_lock saw_error s = record s { ex = record (s.ex) { committed = true }; pump = stopped true }
take_lock _ s = s

abbrev pub no_stream : Stream
no_stream = record { candidate = 0; got = []; closed = false }

unfoldable pub hear : ClientSays → Call → Call
hear (says m) s = record s { pump = received m; from_client = snoc s.from_client m }
hear half_closes s = record s { pump = saw_end }
hear breaks s = record s { pump = saw_error }

abbrev pub give : ℕ → Stream → Stream
give m t = record t { got = snoc t.got m }

abbrev pub close : Stream → Stream
close t = record t { closed = true }

unfoldable pub sent_to : Bool → ℕ → ℕ → Call → Call
sent_to true m k s = record s {
  pump = receiving;
  streams = set s.streams k (give m (get_or s.streams k no_stream));
}
sent_to false m k s = record s { pump = stopped true }

unfoldable pub pump_step : PumpEvent → Pump → Call → Call
unfolding take_lock hear sent_to
pump_step (hears c) receiving s = hear c s
pump_step locks p s = take_lock p s
pump_step (sends ok) (sending m k) s = sent_to ok m k s
pump_step closes (closing k) s = record s {
  pump = stopped false;
  streams = set s.streams k (close (get_or s.streams k no_stream));
}
pump_step _ _ s = s

unfoldable pub step : Str → ℕ → Event → Call → Call
unfolding handler_step pump_step
step policy n (by_handler e) s = handler_step policy n e s.handler s
step policy n (by_pump e) s = pump_step e s.pump s

-- Any interleaving of the two goroutines, from the first event to the last.
unfoldable pub run : Str → ℕ → List Event → Call → Call
unfolding step
run policy n [] s = s
run policy n (e ∷ es) s = run policy n es (step policy n e s)

-- The call as `handle` hands it to `run`.
unfoldable pub new_call : FirstMessage → Call
unfolding new_exchange
new_call f = record {
  ex = new_exchange f;
  handler = attempt 0 none;
  pump = not_started;
  streams = [];
  from_client = first_list (new_exchange f);
  to_client = [];
  headers = [];
  trailers = [];
  attempts = 0;
  book = [];
}

-- ===== src/Proxy/Exchange.antt =====
-- internal/proxy/proxy.go: the parts of `run`, `install`, `relay` and `pump` that happen at once, over
-- the whole state of a call. Two goroutines work on it: the handler, and the pump.
use nw_lb_go.Base.{ℕ, Bool, true, false, not, if◌then◌else◌, List, Option, none, some, length, snoc}
use nw_lb_go.Middleware.Guard.{is_failure}
use nw_lb_go.Proxy.Types.{Err, plain_error, code_of, to_status, Exchange, first_list}

-- An upstream stream that has taken the first message: the candidate that it goes to, the messages that
-- `SendMsg` accepted, and whether `CloseSend` was called.
pub record Stream : Type 0 where
  pub candidate : ℕ
  pub got : List ℕ
  pub closed : Bool

-- Where the handler stands: before candidate `i`, with the last error; relaying stream `k` of candidate
-- `i`; about to judge the failure of candidate `i`, in setting it up or after; or returned.
pub data Handler : Type 0 where
  attempt : (i : ℕ) → Option Err → Handler
  relaying : (i k : ℕ) → Handler
  judging : (i k : ℕ) → Err → (from_setup : Bool) → Handler
  returned : Option Err → Handler

-- Where the pump stands, with the message and the stream that it holds.
pub data Pump : Type 0 where
  not_started receiving : Pump
  received : (m : ℕ) → Pump
  sending : (m k : ℕ) → Pump
  saw_end saw_error : Pump
  closing : (k : ℕ) → Pump
  stopped : (failed : Bool) → Pump
  -- a nil stream was used
  crashed : Pump

-- How the probe of an attempt was resolved.
pub data Booking : Type 0 where
  released : ℕ → Booking
  recorded : ℕ → (failed : Bool) → Booking

-- `from_client` is what the proxy has received of the client's messages, `to_client` what it has sent
-- to the client, with the stream that each message came from; `headers` and `trailers` are the streams
-- whose header or trailer was sent.
pub record Call : Type 0 where
  pub ex : Exchange
  pub handler : Handler
  pub pump : Pump
  pub streams : List Stream
  pub from_client : List ℕ
  pub to_client : List (ℕ × ℕ)
  pub headers : List ℕ
  pub trailers : List ℕ
  pub attempts : ℕ
  pub book : List Booking

-- How opening a stream goes: `NewClientStream` fails, `SendMsg` of the first message fails, or neither.
-- A failure of `SendMsg` may be `io.EOF`, and then `RecvMsg` gives the reason, or nothing.
pub data SendError : Type 0 where
  send_eof : Option Err → SendError
  send_error : Err → SendError

pub data Opened : Type 0 where
  dial_error : Err → Opened
  first_error : SendError → Opened
  opens : Opened

-- `io.EOF` itself is a plain error.
unfoldable pub first_send_error : SendError → Err
first_send_error (send_eof none) = plain_error 0
first_send_error (send_eof (some e)) = e
first_send_error (send_error e) = e

pub data Installed : Type 0 where
  not_replayable : Installed
  install_failed : Err → Installed
  installed : ℕ → Installed

-- The end of `install`: the stream becomes the pump's target. The pump is started once.
unfoldable pub set_stream : ℕ → Call → Call
set_stream i s =
    let e = s.ex in
    let k = length s.streams in
    let t = record s {
      streams =
          snoc s.streams (record { candidate = i; got = first_list e; closed = e.half_closed });
    } in
    let plain = record e { cs = some k; upstream_done = false } in
    let started = record e { cs = some k; upstream_done = false; pumping = true } in
    if e.half_closed
    then record t { ex = plain }
    else if not e.pumping
    then record t { ex = started; pump = receiving }
    else record t { ex = plain }

-- `install`, all under the mutex; the `upstreamDone = false` with which `relay` begins is in it.
unfoldable pub install : ℕ → Opened → Call → Call × Installed
unfolding set_stream first_send_error
install i (dial_error err) s =
    if s.ex.committed then (s, not_replayable) else (s, install_failed err)
install i (first_error err) s =
    if s.ex.committed
    then (s, not_replayable)
    else if s.ex.have_first
    then (s, install_failed (first_send_error err))
    else (set_stream i s, installed (length s.streams))
install i opens s =
    if s.ex.committed then (s, not_replayable) else (set_stream i s, installed (length s.streams))

-- What `cs.Header()` and the client's `SendHeader` say: an error, or whether the header is empty and
-- the error of sending it.
pub data HeaderReply : Type 0 where
  header_error : Err → HeaderReply
  header_is : (empty : Bool) → Option Err → HeaderReply

unfoldable pub forward_header : ℕ → HeaderReply → Call → Call
forward_header k (header_error err) s = s
forward_header k (header_is empty (some err)) s = s
forward_header k (header_is empty none) s =
    if s.ex.sent_header
    then s
    else if empty
    then s
    else record s { ex = record (s.ex) { sent_header = true }; headers = snoc s.headers k }

-- `record`, for the attempt at candidate `i`.
unfoldable pub book_outcome : ℕ → Option Err → Call → Call
book_outcome i none s = record s { book = snoc s.book (recorded i (is_failure none)) }
book_outcome i (some err) s = record s {
  book = snoc s.book (recorded i (is_failure (some (code_of err))));
}

-- The end of `run` for an attempt that is not retried.
unfoldable pub finish : ℕ → Option Err → HeaderReply → Call → Call
unfolding forward_header
finish k err h s =
    let t = forward_header k h s in
    if s.ex.upstream_done
    then record t { trailers = snoc t.trailers k; handler = returned (to_status err) }
    else record s { handler = returned (to_status err) }

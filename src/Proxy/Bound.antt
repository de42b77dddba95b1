-- ===== src/Proxy/Bound.antt =====
-- internal/proxy/proxy.go: a call comes to its end.
use nw_lb_go.Base.{
  ℕ, suc, ◌+◌, leb, ◌==◌, Bool, true, false, not, ◌&&◌, if◌then◌else◌, List, [], ◌∷◌, Option, none,
  some, length, snoc, Str,
}
use nw_lb_go.Proxy.Types.{Err, Exchange, FirstMessage}
use nw_lb_go.Proxy.Retry.{can_retry}
use nw_lb_go.Proxy.Exchange.{
  Handler, attempt, relaying, judging, returned, Call, Opened, Installed, not_replayable,
  install_failed, installed, install, HeaderReply, header_error, header_is, forward_header,
  book_outcome, finish,
}
use nw_lb_go.Base.{◌≡◌, refl, ap, length-snoc, if_elim, ◌≤◌, ◌<◌, ◌-◌, ◌*◌, arith}
use nw_lb_go.Proxy.System.{
  Event, by_handler, by_pump, HandlerEvent, tries, relays, ends, judges, conclude, try_candidate,
  relay_failed, upstream_ended, send_message, send_header, relay_ends, judge, handler_step, step,
  run, new_call,
}
use nw_lb_go.Proxy.Side.{pump_step-both, install-side}

-- Whether an event is one that the handler is waiting for.
abbrev pub fits : HandlerEvent → Handler → Bool
fits (tries admitted o) (attempt i le) = true
fits (relays m h f) (relaying i k) = true
fits (ends r h g) (relaying i k) = true
fits (judges c l h) (judging i k e f) = true
fits _ _ = false

-- The rounds of the handler in a run.
abbrev pub rounds : Str → ℕ → List Event → Call → ℕ
rounds policy n [] s = 0
rounds policy n (by_handler e ∷ es) s =
    (if fits e s.handler then 1 else 0) + rounds policy n es (step policy n (by_handler e) s)
rounds policy n (by_pump e ∷ es) s = rounds policy n es (step policy n (by_pump e) s)

-- How far the handler is from its return: an attempt has three stages.
abbrev pub to_go : ℕ → Handler → ℕ
to_go n (attempt i le) = 3 * (n - i) + 3
to_go n (relaying i k) = 3 * (n - i) + 2
to_go n (judging i k e f) = 3 * (n - i) + 1
to_go n (returned r) = 0

-- A round from a handler with `before` to go and `sent` messages relayed.
abbrev Closer : ℕ → ℕ → ℕ → Call → Type 0
Closer n before sent t = 1 + to_go n t.handler + sent ≤ before + length t.to_client

forward_header-sent :
    (k : ℕ) (h : HeaderReply) (s : Call)
    → length (forward_header k h s).to_client ≡ length s.to_client
unfolding forward_header
forward_header-sent k (header_error e) s = refl
forward_header-sent k (header_is empty (some e)) s = refl
forward_header-sent k (header_is empty none) s =
    let P : Call → Type 0 = λ t. length t.to_client ≡ length s.to_client in
    if_elim P s.ex.sent_header (λ a. refl) (λ a. if_elim P empty (λ b. refl) (λ b. refl))

finish-Closer :
    (n b k : ℕ) (r : Option Err) (h : HeaderReply) (s : Call)
    → 1 ≤ b
    → Closer n b (length s.to_client) (finish k r h s)
unfolding finish
finish-Closer n b k r h s c =
    if_elim (Closer n b (length s.to_client)) s.ex.upstream_done
      (λ d. (let e = forward_header-sent k h s in omega arith)) (λ d. omega arith)

send_message-Closer :
    (n i k m : ℕ) (f : Option Err) (s : Call)
    → s.handler ≡ relaying i k
    → Closer n (3 * (n - i) + 2) (length s.to_client) (send_message i k m f s)
unfolding send_message relay_failed book_outcome
send_message-Closer n i k m (some e) s at = omega arith
send_message-Closer n i k m none s at = rw at (omega (arith, length-snoc s.to_client (k, m)))

send_header-Closer :
    (n i k m : ℕ) (h : HeaderReply) (f : Option Err) (s : Call)
    → s.handler ≡ relaying i k
    → Closer n (3 * (n - i) + 2) (length s.to_client) (send_header i k m h f s)
unfolding send_header relay_failed upstream_ended book_outcome
send_header-Closer n i k m (header_error e) f s at = omega arith
send_header-Closer n i k m (header_is empty (some e)) f s at = omega arith
send_header-Closer n i k m (header_is empty none) f s at =
    send_message-Closer n i k m f
      (record s { ex = record (s.ex) { sent_header = true }; headers = snoc s.headers k }) at

relay_ends-Closer :
    (n i k : ℕ) (r : Option Err) (h g : HeaderReply) (s : Call)
    → Closer n (3 * (n - i) + 2) (length s.to_client) (relay_ends i k r h g s)
unfolding relay_ends relay_failed upstream_ended book_outcome
relay_ends-Closer n i k (some e) h g s = omega arith
relay_ends-Closer n i k none h g s =
    let t = forward_header k h (upstream_ended s) in
    let same = forward_header-sent k h (upstream_ended s) in
    let close = finish-Closer n (3 * (n - i) + 2) k none g (book_outcome i none t) (omega arith) in
    omega (arith, same, close)

judge-Closer :
    (policy : Str) (n i k : ℕ) (e : Err) (from_setup ended left : Bool) (h : HeaderReply) (s : Call)
    → Closer n
        (3 * (n - i) + 1)
        (length s.to_client)
        (judge policy n i k e from_setup ended left h s)
unfolding judge
judge-Closer policy n i k e from_setup ended left h s =
    let P = Closer n (3 * (n - i) + 1) (length s.to_client) in
    if_elim P (can_retry policy s.ex ended left e i n from_setup)
      (λ r. (let more = can_retry-more policy s.ex ended left e i n from_setup r in omega arith))
      (λ r.
        if_elim P from_setup (λ f. omega arith)
          (λ f. finish-Closer n (3 * (n - i) + 1) k (some e) h s (omega arith)))
  where
    can_retry-more :
        (policy : Str) (e : Exchange) (ended left : Bool) (err : Err) (i n : ℕ) (from_setup : Bool)
        → can_retry policy e ended left err i n from_setup ≡ true
        → i + 1 < n
    can_retry-more policy e ended left err i n from_setup h = ground (arith, can_retry)

conclude-Closer :
    (n i sent : ℕ) (le : Option Err) (s : Call) (r : Installed)
    → length s.to_client ≡ sent
    → Closer n (3 * (n - i) + 3) sent (conclude i le s r)
unfolding conclude book_outcome
conclude-Closer n i sent le s not_replayable e = omega arith
conclude-Closer n i sent le s (install_failed x) e = omega arith
conclude-Closer n i sent le s (installed k) e = omega arith

try_candidate-Closer :
    (n i : ℕ) (le : Option Err) (admitted : Bool) (o : Opened) (s : Call)
    → Closer n (3 * (n - i) + 3) (length s.to_client) (try_candidate n i le admitted o s)
unfolding try_candidate
try_candidate-Closer n i le admitted o s =
    let t : Call = record s { attempts = suc s.attempts } in
    let r : Call × Installed = install i o t in
    let P = Closer n (3 * (n - i) + 3) (length s.to_client) in
    if_elim P (leb n i) (λ a. omega arith)
      (λ a.
        if_elim P (not admitted && not (i + 1 == n)) (λ b. ground arith)
          (λ b.
            conclude-Closer n i (length s.to_client) le (r.0) (r.1)
              (ap (λ v. length v.to_client) (install-side i o t).0)))

handler_step-Closer :
    (policy : Str) (n : ℕ) (e : HandlerEvent) (a : Handler) (s : Call)
    → s.handler ≡ a
    → (if fits e a then 1 else 0)
        + to_go n (handler_step policy n e a s).handler
        + length s.to_client
      ≤ to_go n a + length (handler_step policy n e a s).to_client
unfolding handler_step
handler_step-Closer policy n (tries admitted o) (attempt i le) s at =
    try_candidate-Closer n i le admitted o s
handler_step-Closer policy n (relays m g f) (relaying i k) s at =
    if_elim (Closer n (3 * (n - i) + 2) (length s.to_client)) s.ex.sent_header
      (λ a. send_message-Closer n i k m f s at) (λ a. send_header-Closer n i k m g f s at)
handler_step-Closer policy n (ends r g x) (relaying i k) s at = relay_ends-Closer n i k r g x s
handler_step-Closer policy n (judges c l g) (judging i k e f) s at =
    judge-Closer policy n i k e f c l g s
handler_step-Closer policy n e a s at = rw at (omega arith)

run-rounds :
    (policy : Str) (n : ℕ) (es : List Event) (s : Call)
    → rounds policy n es s + to_go n (run policy n es s).handler + length s.to_client
      ≤ to_go n s.handler + length (run policy n es s).to_client
unfolding run step
run-rounds policy n [] s = omega arith
run-rounds policy n (by_handler e ∷ es) s =
    let rest = run-rounds policy n es (step policy n (by_handler e) s) in
    let here = handler_step-Closer policy n e s.handler s refl in omega (arith, rest, here)
run-rounds policy n (by_pump e ∷ es) s =
    let t = step policy n (by_pump e) s in
    let same = pump_step-both e s.pump s in
    let a : to_go n t.handler ≡ to_go n s.handler = ap (λ b. to_go n (b.0).handler) same in
    let b : length t.to_client ≡ length s.to_client = ap (λ b. length (b.0).to_client) same in
    omega (arith, run-rounds policy n es t, a, b)

-- Whatever the backends, the client and the pump do, the handler takes at most three rounds for each
-- candidate, three more, and one for each message that it relays: so it cannot go on without relaying,
-- and returns once the upstream streams end.
pub rounds_bounded :
    (policy : Str) (n : ℕ) (es : List Event) (f : FirstMessage)
    → let s = run policy n es (new_call f) in
      rounds policy n es (new_call f) + to_go n s.handler ≤ 3 * n + 3 + length s.to_client
unfolding new_call
rounds_bounded policy n es f = let h = run-rounds policy n es (new_call f) in omega (arith, h)

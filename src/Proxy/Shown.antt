-- ===== src/Proxy/Shown.antt =====
-- internal/proxy/proxy.go: what the client is shown comes from one backend.
use nw_lb_go.Base.{ℕ, suc, ◌+◌, leb, ◌==◌, Bool, true, false, not, ◌&&◌, List, [], ◌∷◌, Option, Str}
use nw_lb_go.Proxy.Types.{Err, FirstMessage}
use nw_lb_go.Proxy.Exchange.{
  Handler, attempt, relaying, judging, returned, Call, Opened, Installed, not_replayable,
  install_failed, installed, install, book_outcome,
}
use nw_lb_go.Base.{◌≡◌, refl, sym, ap, subst, if_elim}
use nw_lb_go.Proxy.System.{
  Event, by_handler, by_pump, HandlerEvent, tries, relays, ends, judges, conclude, try_candidate,
  handler_step, step, run, new_call,
}
use nw_lb_go.Proxy.Side.{pump_step-both, install-side}
use nw_lb_go.Proxy.Output.{
  output_of, output, Shown, Unseen-OnlyFrom, Unseen-Partly, OnlyFromOne, send_message-Shown,
  send_header-Shown, relay_ends-Shown, judge-Shown, Output, Unseen, OnlyFrom,
}

conclude-Shown :
    (i : ℕ) (le : Option Err) (s : Call) (r : Installed)
    → Unseen (output s)
    → OnlyFromOne (conclude i le s r)
unfolding conclude book_outcome
conclude-Shown i le s not_replayable u = (0, Unseen-OnlyFrom 0 (output s) u)
conclude-Shown i le s (install_failed e) u = u
conclude-Shown i le s (installed k) u = Unseen-Partly k (output s) u

try_candidate-Shown :
    (n i : ℕ) (le : Option Err) (admitted : Bool) (o : Opened) (s : Call)
    → Unseen (output s)
    → OnlyFromOne (try_candidate n i le admitted o s)
unfolding try_candidate
try_candidate-Shown n i le admitted o s u =
    let t : Call = record s { attempts = suc s.attempts } in
    let r : Call × Installed = install i o t in
    let same : output t ≡ output (r.0) = ap output_of (sym (install-side i o t).0) in
    if_elim OnlyFromOne (leb n i) (λ a. (0, Unseen-OnlyFrom 0 (output s) u))
      (λ a.
        if_elim OnlyFromOne (not admitted && not (i + 1 == n)) (λ b. u)
          (λ b. conclude-Shown i le (r.0) (r.1) (subst Unseen same u)))

handler_step-Shown :
    (policy : Str) (n : ℕ) (e : HandlerEvent) (a : Handler) (s : Call)
    → s.handler ≡ a
    → OnlyFromOne s
    → OnlyFromOne (handler_step policy n e a s)
unfolding handler_step
handler_step-Shown policy n e a s at h = go e a at (subst (λ a. Shown a (output s)) at h)
  where
    go :
        (e : HandlerEvent) (a : Handler)
        → s.handler ≡ a
        → Shown a (output s)
        → OnlyFromOne (handler_step policy n e a s)
    go (tries admitted o) (attempt i le) at p = try_candidate-Shown n i le admitted o s p
    go (relays m g f) (relaying i k) at p =
        if_elim OnlyFromOne s.ex.sent_header (λ a. send_message-Shown i k m f s at p)
          (λ a. send_header-Shown i k m g f s at a p)
    go (ends r g x) (relaying i k) at p = relay_ends-Shown i k r g x s p
    go (judges c l g) (judging i k e f) at p = judge-Shown policy n i k e f c l g s p
    go e a at p = h

step-Shown :
    (policy : Str) (n : ℕ) (e : Event) (s : Call) → OnlyFromOne s → OnlyFromOne (step policy n e s)
unfolding step
step-Shown policy n (by_handler e) s h = handler_step-Shown policy n e s.handler s refl h
step-Shown policy n (by_pump e) s h =
    subst (λ v. Shown v.handler (output_of v)) (sym (ap (λ b. b.0) (pump_step-both e s.pump s))) h

run-Shown :
    (policy : Str) (n : ℕ) (es : List Event) (s : Call)
    → OnlyFromOne s
    → OnlyFromOne (run policy n es s)
unfolding run
run-Shown policy n [] s h = h
run-Shown policy n (e ∷ es) s h =
    run-Shown policy n es (step policy n e s) (step-Shown policy n e s h)

Shown-OnlyFrom : (a : Handler) (o : Output) → Shown a o → (k : ℕ) × OnlyFrom k o
Shown-OnlyFrom (attempt i le) o u = (0, Unseen-OnlyFrom 0 o u)
Shown-OnlyFrom (relaying i k) o p = (k, p.from)
Shown-OnlyFrom (judging i k e true) o u = (0, Unseen-OnlyFrom 0 o u)
Shown-OnlyFrom (judging i k e false) o p = (k, p.from)
Shown-OnlyFrom (returned e) o p = p

-- However often a call is moved to another backend, the client sees one of them: at any time all the
-- messages, the header and the trailer that were sent to it came from one upstream stream, and at most
-- one header and one trailer were sent.
pub run-OnlyFrom :
    (policy : Str) (n : ℕ) (es : List Event) (f : FirstMessage)
    → let s = run policy n es (new_call f) in (k : ℕ) × OnlyFrom k (output s)
unfolding new_call
run-OnlyFrom policy n es f =
    let s = run policy n es (new_call f) in
    Shown-OnlyFrom s.handler (output s)
      (run-Shown policy n es (new_call f) (record { messages = refl; heads = refl; ends = refl }))

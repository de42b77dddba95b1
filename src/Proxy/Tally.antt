-- ===== src/Proxy/Tally.antt =====
-- internal/proxy/proxy.go: how often a call is attempted, and on how many backends.
use nw_lb_go.Base.{
  ℕ, suc, ◌+◌, leb, ◌==◌, Bool, true, false, not, ◌&&◌, List, [], ◌∷◌, Option, some, length, Str,
}
use nw_lb_go.Proxy.Types.{Err, FirstMessage}
use nw_lb_go.Proxy.Exchange.{
  Handler, attempt, relaying, judging, returned, released, Call, Opened, Installed, not_replayable,
  install_failed, installed, install, book_outcome,
}
use nw_lb_go.Base.{◌≡◌, ◌∙◌, refl, sym, ap, subst, length-snoc, if_elim, ◌≤◌, ◌<◌, arith, str_eq}
use nw_lb_go.Config.Types.{retry_none, retry_unavailable}
use nw_lb_go.Middleware.Guard.{is_failure}
use nw_lb_go.Proxy.Exchange.{recorded}
use nw_lb_go.Proxy.Types.{code_of}
use nw_lb_go.Proxy.System.{
  Event, by_handler, by_pump, HandlerEvent, tries, relays, ends, judges, conclude, try_candidate,
  handler_step, step, run, new_call,
}
use nw_lb_go.Base.{◌++◌}
use nw_lb_go.Proxy.Probes.{resolved, open_probe, reserved, run-held}
use nw_lb_go.Proxy.Side.{Opening, pump_step-both, install-side}
use nw_lb_go.Proxy.Budget.{
  counts_of, counts, Tally, Tallied, Allowed-mono, judge-Tally, send_message-Tally,
  send_header-Tally, relay_ends-Tally,
}

conclude-Tally :
    (policy : Str) (n i before : ℕ) (le : Option Err) (s : Call) (r : Installed)
    → s.attempts ≡ suc (length s.book)
    → s.attempts ≤ suc i
    → i < n
    → Opening before r (length s.streams)
    → (str_eq policy retry_unavailable ≡ false → before ≤ 0)
    → (str_eq policy retry_none ≡ true → s.attempts ≤ 1)
    → Tallied policy n (conclude i le s r)
unfolding conclude book_outcome
conclude-Tally policy n i before le s not_replayable a b c d u v = (
  a ∙ sym (length-snoc s.book (released i)),
  omega (arith, b, c),
  λ x. omega (arith, a),
  record { streams = λ x. (let y = u x in omega (arith, d, y)); tries = v },
)
conclude-Tally policy n i before le s (install_failed e) a b c d u v = (
  a ∙ sym (length-snoc s.book (recorded i (is_failure (some (code_of e))))),
  b,
  c,
  omega (arith, a),
  record { streams = λ x. (let y = u x in omega (arith, d, y)); tries = v },
)
conclude-Tally policy n i before le s (installed k) a b c d u v = (
  a,
  b,
  c,
  omega (arith, a),
  record { streams = λ x. (let y = u x in omega (arith, d, y)); tries = v },
)

try_candidate-Tally :
    (policy : Str) (n i : ℕ) (le : Option Err) (admitted : Bool) (o : Opened) (s : Call)
    → Tally policy n (attempt i le) (counts s)
    → Tallied policy n (try_candidate n i le admitted o s)
unfolding try_candidate
try_candidate-Tally policy n i le admitted o s p =
    let t : Call = record s { attempts = suc s.attempts } in
    let r : Call × Installed = install i o t in
    let same = install-side i o t in
    let tried : (r.0).attempts ≡ suc s.attempts = ap (λ v. v.attempts) same.0 in
    let booked : length (r.0).book ≡ length s.book = ap (λ v. length v.book) same.0 in
    if_elim (Tallied policy n) (leb n i)
      (λ a. (
        p.0,
        omega (arith, p.1, p.2),
        λ b. p.3 b (ground (arith, p.2)),
        Allowed-mono policy 0 1 0 1 (counts s) (omega arith) (omega arith) p.4,
      ))
      (λ a.
        if_elim (Tallied policy n) (not admitted && not (i + 1 == n))
          (λ b. (p.0, omega (arith, p.1), ground arith, λ c d. ground arith, p.4))
          (λ b.
            conclude-Tally policy n i (length s.streams) le (r.0) (r.1)
              (omega (arith, tried, booked, p.0)) (omega (arith, tried, p.1)) (ground arith)
              (same.1) (p.4.streams) (λ x. (let y = p.4.tries x in omega (arith, tried, y)))))

handler_step-Tally :
    (policy : Str) (n : ℕ) (e : HandlerEvent) (a : Handler) (s : Call)
    → s.handler ≡ a
    → Tallied policy n s
    → Tallied policy n (handler_step policy n e a s)
unfolding handler_step
handler_step-Tally policy n e a s at h = go e a at (subst (λ a. Tally policy n a (counts s)) at h)
  where
    go :
        (e : HandlerEvent) (a : Handler)
        → s.handler ≡ a
        → Tally policy n a (counts s)
        → Tallied policy n (handler_step policy n e a s)
    go (tries admitted o) (attempt i le) at p = try_candidate-Tally policy n i le admitted o s p
    go (relays m g f) (relaying i k) at p =
        if_elim (Tallied policy n) s.ex.sent_header
          (λ a. send_message-Tally policy n i k m f s at p)
          (λ a. send_header-Tally policy n i k m g f s at p)
    go (ends r g x) (relaying i k) at p = relay_ends-Tally policy n i k r g x s p
    go (judges c l g) (judging i k e f) at p = judge-Tally policy n i k e f c l g s p
    go e a at p = h

step-Tally :
    (policy : Str) (n : ℕ) (e : Event) (s : Call)
    → Tallied policy n s
    → Tallied policy n (step policy n e s)
unfolding step
step-Tally policy n (by_handler e) s h = handler_step-Tally policy n e s.handler s refl h
step-Tally policy n (by_pump e) s h =
    subst (λ b. Tally policy n (b.0).handler (counts_of b)) (sym (pump_step-both e s.pump s)) h

run-Tally :
    (policy : Str) (n : ℕ) (es : List Event) (s : Call)
    → Tallied policy n s
    → Tallied policy n (run policy n es s)
unfolding run
run-Tally policy n [] s h = h
run-Tally policy n (e ∷ es) s h =
    run-Tally policy n es (step policy n e s) (step-Tally policy n e s h)

new_call-Tally : (policy : Str) (n : ℕ) (f : FirstMessage) → Tallied policy n (new_call f)
unfolding new_call
new_call-Tally policy n f = (
  refl,
  omega arith,
  omega arith,
  λ a b. absurd (omega arith),
  record { streams = λ u. omega arith; tries = λ u. omega arith },
)

-- An attempt whose outcome is not booked yet.
abbrev pub under_way : Handler → ℕ
under_way (relaying i k) = 1
under_way _ = 0

-- What `run` promises about its attempts.
pub record Bounded (policy : Str) (n : ℕ) (s : Call) : Type 0 where
  pub accounted : s.attempts ≡ length s.book + under_way s.handler
  pub at_most : s.attempts ≤ n
  pub once : str_eq policy retry_unavailable ≡ false → length s.streams ≤ 1
  pub no_retry : str_eq policy retry_none ≡ true → s.attempts ≤ 1

Tally-Bounded :
    (policy : Str) (n : ℕ) (h : Handler) (s : Call)
    → s.handler ≡ h
    → Tally policy n h (counts s)
    → Bounded policy n s
Tally-Bounded policy n (attempt i le) s at p = record {
  accounted = rw at (omega (arith, p.0));
  at_most = omega (arith, p.1, p.2);
  once = λ u. (let y = p.4.streams u in omega (arith, y));
  no_retry = λ u. (let y = p.4.tries u in omega (arith, y));
}
Tally-Bounded policy n (relaying i k) s at p = record {
  accounted = rw at (omega (arith, p.0));
  at_most = omega (arith, p.1, p.2);
  once = p.4.streams;
  no_retry = p.4.tries;
}
Tally-Bounded policy n (judging i k e true) s at p = record {
  accounted = rw at (omega (arith, p.0));
  at_most = omega (arith, p.1, p.2);
  once = λ u. (let y = p.4.streams u in omega (arith, y));
  no_retry = p.4.tries;
}
Tally-Bounded policy n (judging i k e false) s at p = record {
  accounted = rw at (omega (arith, p.0));
  at_most = omega (arith, p.1, p.2);
  once = p.4.streams;
  no_retry = p.4.tries;
}
Tally-Bounded policy n (returned r) s at p = record {
  accounted = rw at (omega (arith, p.0));
  at_most = p.1;
  once = p.3.streams;
  no_retry = p.3.tries;
}

-- At any time of a call: the probes that were reserved for its attempts are, in order and each once,
-- those that were resolved and after them the one of the attempt under way; there are no more attempts
-- than candidates; unless the policy is "unavailable" at most one stream has taken the request; and
-- under the policy "none" there is at most one attempt.
pub run-Bounded :
    (policy : Str) (n : ℕ) (es : List Event) (f : FirstMessage)
    → let s = run policy n es (new_call f) in
      (reserved policy n es (new_call f) ≡ resolved s.book ++ open_probe s.handler)
      × Bounded policy n s
unfolding new_call
run-Bounded policy n es f =
    let s = run policy n es (new_call f) in
    (
      sym (run-held policy n es (new_call f)),
      Tally-Bounded policy n s.handler s refl
          (run-Tally policy n es (new_call f) (new_call-Tally policy n f)),
    )

-- A call that has a candidate is never turned away unattempted, even when every breaker refuses it: when
-- it has returned, at least one backend was tried.
pub returned_tried :
    (policy : Str) (n : ℕ) (es : List Event) (f : FirstMessage) (r : Option Err)
    → 1 ≤ n
    → (run policy n es (new_call f)).handler ≡ returned r
    → 1 ≤ (run policy n es (new_call f)).attempts
returned_tried policy n es f r some_candidate e =
    let s = run policy n es (new_call f) in
    let p = run-Tally policy n es (new_call f) (new_call-Tally policy n f) in
    (subst (λ h. Tally policy n h (counts s)) e p).2 some_candidate

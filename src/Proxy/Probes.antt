-- ===== src/Proxy/Probes.antt =====
-- internal/proxy/proxy.go: which probes a call reserves, and which it resolves.
use nw_lb_go.Base.{
  ℕ, suc, ◌+◌, leb, ltb, ◌==◌, ◌≡◌, ◌∙◌, refl, sym, ap, if_elim, Bool, true, false, not, ◌&&◌, ◌||◌,
  if◌then◌else◌, List, [], ◌∷◌, ◌++◌, snoc, Option, none, some, Str, append_nil, append_assoc,
  arith,
}
use nw_lb_go.Middleware.Guard.{is_failure}
use nw_lb_go.Proxy.Types.{Err, code_of}
use nw_lb_go.Proxy.Retry.{can_retry}
use nw_lb_go.Proxy.Exchange.{
  Handler, attempt, relaying, judging, returned, Booking, released, recorded, Call, Opened,
  Installed, not_replayable, install_failed, installed, install, HeaderReply, header_error,
  header_is, forward_header, book_outcome, finish,
}
use nw_lb_go.Proxy.System.{
  Event, by_handler, by_pump, HandlerEvent, tries, relays, ends, judges, conclude, try_candidate,
  relay_failed, upstream_ended, send_message, send_header, relay_ends, judge, handler_step, step,
  run,
}
use nw_lb_go.Proxy.Side.{pump_step-both, install-side}

abbrev pub probe_of : Booking → ℕ
probe_of (released i) = i
probe_of (recorded i failed) = i

-- The candidates whose probes were resolved, in order.
abbrev pub resolved : List Booking → List ℕ
resolved [] = []
resolved (x ∷ xs) = probe_of x ∷ resolved xs

-- The candidate whose probe is not resolved yet.
abbrev pub open_probe : Handler → List ℕ
open_probe (relaying i k) = i ∷ []
open_probe _ = []

-- The candidate whose probe an event reserves for an attempt: one that the breaker admits, or the last.
abbrev pub reserves : ℕ → Event → Handler → List ℕ
reserves n (by_handler (tries admitted o)) (attempt i le) =
    if ltb i n && (admitted || i + 1 == n) then i ∷ [] else []
reserves n _ _ = []

-- The candidates whose probes a run reserves, in order.
abbrev pub reserved : Str → ℕ → List Event → Call → List ℕ
reserved policy n [] s = []
reserved policy n (e ∷ es) s = reserves n e s.handler ++ reserved policy n es (step policy n e s)

abbrev held_by : List Booking → Handler → List ℕ
held_by book h = resolved book ++ open_probe h

abbrev pub held : Call → List ℕ
held s = held_by s.book s.handler

resolved-snoc :
    (xs : List Booking) (x : Booking) → resolved (snoc xs x) ≡ resolved xs ++ probe_of x ∷ []
resolved-snoc [] x = refl
resolved-snoc (y ∷ xs) x = ap (λ l. probe_of y ∷ l) (resolved-snoc xs x)

-- A probe that is resolved, with nothing under way after it.
booked :
    (xs : List Booking) (x : Booking) (h : Handler)
    → open_probe h ≡ []
    → held_by (snoc xs x) h ≡ resolved xs ++ probe_of x ∷ []
booked xs x h e = rw e (append_nil (resolved (snoc xs x)) ∙ resolved-snoc xs x)

conclude-held :
    (i : ℕ) (le : Option Err) (t : Call) (r : Installed)
    → held (conclude i le t r) ≡ resolved t.book ++ i ∷ []
unfolding conclude book_outcome
conclude-held i le t not_replayable = booked t.book (released i) (returned none) refl
conclude-held i le t (install_failed e) =
    booked t.book (recorded i (is_failure (some (code_of e)))) (returned none) refl
conclude-held i le t (installed k) = refl

relay_failed-held :
    (i k : ℕ) (e : Err) (s : Call) → held (relay_failed i k e s) ≡ resolved s.book ++ i ∷ []
unfolding relay_failed book_outcome
relay_failed-held i k e s =
    booked s.book (recorded i (is_failure (some (code_of e)))) (returned none) refl

send_message-held :
    (i k m : ℕ) (f : Option Err) (s : Call)
    → s.handler ≡ relaying i k
    → held (send_message i k m f s) ≡ resolved s.book ++ i ∷ []
unfolding send_message
send_message-held i k m (some e) s at = relay_failed-held i k e s
send_message-held i k m none s at = ap (held_by s.book) at

send_header-held :
    (i k m : ℕ) (h : HeaderReply) (f : Option Err) (s : Call)
    → s.handler ≡ relaying i k
    → held (send_header i k m h f s) ≡ resolved s.book ++ i ∷ []
unfolding send_header upstream_ended
send_header-held i k m (header_error e) f s at = relay_failed-held i k e (upstream_ended s)
send_header-held i k m (header_is empty (some e)) f s at = relay_failed-held i k e s
send_header-held i k m (header_is empty none) f s at =
    send_message-held i k m f
      (record s { ex = record (s.ex) { sent_header = true }; headers = snoc s.headers k }) at

forward_header-book : (k : ℕ) (h : HeaderReply) (s : Call) → (forward_header k h s).book ≡ s.book
unfolding forward_header
forward_header-book k (header_error e) s = refl
forward_header-book k (header_is empty (some e)) s = refl
forward_header-book k (header_is empty none) s =
    let P : Call → Type 0 = λ t. t.book ≡ s.book in
    if_elim P s.ex.sent_header (λ a. refl) (λ a. if_elim P empty (λ b. refl) (λ b. refl))

finish-held :
    (k : ℕ) (r : Option Err) (h : HeaderReply) (s : Call) → held (finish k r h s) ≡ resolved s.book
unfolding finish
finish-held k r h s =
    let ended = append_nil (resolved s.book) in
    if_elim (λ t. held t ≡ resolved s.book) s.ex.upstream_done
      (λ d. ap (λ b. held_by b (returned none)) (forward_header-book k h s) ∙ ended) (λ d. ended)

judge-held :
    (policy : Str) (n i k : ℕ) (e : Err) (from_setup ended left : Bool) (h : HeaderReply) (s : Call)
    → held (judge policy n i k e from_setup ended left h s) ≡ resolved s.book
unfolding judge
judge-held policy n i k e from_setup ended left h s =
    let none_open = append_nil (resolved s.book) in
    let P : Call → Type 0 = λ t. held t ≡ resolved s.book in
    if_elim P (can_retry policy s.ex ended left e i n from_setup) (λ r. none_open)
      (λ r. if_elim P from_setup (λ f. none_open) (λ f. finish-held k (some e) h s))

relay_ends-held :
    (i k : ℕ) (r : Option Err) (h g : HeaderReply) (s : Call)
    → held (relay_ends i k r h g s) ≡ resolved s.book ++ i ∷ []
unfolding relay_ends upstream_ended book_outcome
relay_ends-held i k (some e) h g s = relay_failed-held i k e (upstream_ended s)
relay_ends-held i k none h g s =
    let t = forward_header k h (upstream_ended s) in
    finish-held k none g (book_outcome i none t)
    ∙ resolved-snoc t.book (recorded i (is_failure none))
    ∙ ap (λ b. resolved b ++ i ∷ []) (forward_header-book k h (upstream_ended s))

try_candidate-held :
    (n i : ℕ) (le : Option Err) (admitted : Bool) (o : Opened) (s : Call)
    → held (try_candidate n i le admitted o s)
      ≡ resolved s.book ++ (if ltb i n && (admitted || i + 1 == n) then i ∷ [] else [])
unfolding try_candidate
try_candidate-held n i le admitted o s =
    let t : Call = record s { attempts = suc s.attempts } in
    let r : Call × Installed = install i o t in
    let same : (r.0).book ≡ s.book = ap (λ v. v.book) (install-side i o t).0 in
    let claim : List ℕ = if ltb i n && (admitted || i + 1 == n) then i ∷ [] else [] in
    let P : Call → Type 0 = λ u. held u ≡ resolved s.book ++ claim in
    if_elim P (leb n i) (λ a. let e : ltb i n ≡ false = ground arith in rw e refl)
      (λ a.
        let e : ltb i n ≡ true = ground arith in
        if_elim P (not admitted && not (i + 1 == n))
          (λ b.
            let f : (admitted || i + 1 == n) ≡ false = passed_over admitted (i + 1 == n) b in
            rw (e, f) refl)
          (λ b.
            let f : (admitted || i + 1 == n) ≡ true = goes_on admitted (i + 1 == n) b in
            rw (e, f) (conclude-held i le (r.0) (r.1) ∙ ap (λ b. resolved b ++ i ∷ []) same)))
  where
    passed_over : (a l : Bool) → (not a && not l) ≡ true → (a || l) ≡ false
    passed_over true l h = cc
    passed_over false true h = cc
    passed_over false false h = refl

    goes_on : (a l : Bool) → (not a && not l) ≡ false → (a || l) ≡ true
    goes_on true l h = refl
    goes_on false true h = refl
    goes_on false false h = cc

handler_step-held :
    (policy : Str) (n : ℕ) (e : HandlerEvent) (s : Call)
    → held (handler_step policy n e s.handler s) ≡ held s ++ reserves n (by_handler e) s.handler
unfolding handler_step
handler_step-held policy n e s = go e s.handler refl
  where
    still : (l : List ℕ) → l ≡ l ++ []
    still l = sym (append_nil l)

    go :
        (e : HandlerEvent) (a : Handler)
        → s.handler ≡ a
        → held (handler_step policy n e a s) ≡ held_by s.book a ++ reserves n (by_handler e) a
    go (tries admitted o) (attempt i le) at =
        try_candidate-held n i le admitted o s
        ∙ ap (λ l. l ++ reserves n (by_handler (tries admitted o)) (attempt i le))
            (still (resolved s.book))
    go (relays m g f) (relaying i k) at =
        if_elim (λ t. held t ≡ (resolved s.book ++ i ∷ []) ++ []) s.ex.sent_header
          (λ a. send_message-held i k m f s at ∙ still (resolved s.book ++ i ∷ []))
          (λ a. send_header-held i k m g f s at ∙ still (resolved s.book ++ i ∷ []))
    go (ends r g x) (relaying i k) at =
        relay_ends-held i k r g x s ∙ still (resolved s.book ++ i ∷ [])
    go (judges c l g) (judging i k e f) at =
        judge-held policy n i k e f c l g s
        ∙ (still (resolved s.book) ∙ still (resolved s.book ++ []))
    go e a at = ap (held_by s.book) at ∙ still (held_by s.book a)

step-held :
    (policy : Str) (n : ℕ) (e : Event) (s : Call)
    → held (step policy n e s) ≡ held s ++ reserves n e s.handler
unfolding step
step-held policy n (by_handler e) s = handler_step-held policy n e s
step-held policy n (by_pump e) s =
    ap (λ b. held_by (b.0).book (b.0).handler) (pump_step-both e s.pump s)
    ∙ sym (append_nil (held s))

pub run-held :
    (policy : Str) (n : ℕ) (es : List Event) (s : Call)
    → held (run policy n es s) ≡ held s ++ reserved policy n es s
unfolding run
run-held policy n [] s = sym (append_nil (held s))
run-held policy n (e ∷ es) s =
    run-held policy n es (step policy n e s)
    ∙ ap (λ l. l ++ reserved policy n es (step policy n e s)) (step-held policy n e s)
    ∙ append_assoc (held s) (reserves n e s.handler) (reserved policy n es (step policy n e s))

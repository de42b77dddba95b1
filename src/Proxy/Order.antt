-- ===== src/Proxy/Order.antt =====
-- internal/proxy/proxy.go: no message of the client is lost, doubled or reordered, whatever the order in
-- which the handler and the pump run.
use nw_lb_go.Base.{
  ℕ, suc, ◌≡◌, refl, ap, ◌∙◌, sym, Bool, true, false, inl, inr, List, [], ◌∷◌, Option, none, some,
  length, length-set, get_or, set, snoc, Str, get_or-set_same, ◌==◌, ◌<◌, ◌≢◌, get_or-set_other,
  subst, Bool-cases, arith,
}
use nw_lb_go.Proxy.Types.{FirstMessage, first_is, nothing_sent, new_exchange}
use nw_lb_go.Proxy.Exchange.{
  Stream, Pump, not_started, receiving, received, sending, saw_end, saw_error, closing, stopped,
  crashed, Call,
}
use nw_lb_go.Proxy.System.{
  ClientSays, says, half_closes, breaks, PumpEvent, hears, locks, sends, closes, Event, by_handler,
  by_pump, taken, take_lock, no_stream, hear, give, close, sent_to, pump_step, step, run, new_call,
}
use nw_lb_go.Proxy.View.{view}
use nw_lb_go.Proxy.Delivery.{
  with_held, count, Phase, Placed, HasAll, Reached, Delivers, handler_step-Delivers,
}

-- A call whose stream in use and whose pump are the ones given.
abbrev stands : Option ℕ → Pump → Call → Call
stands o p s = record s { ex = record (s.ex) { cs = o }; pump = p }

locked-Delivers :
    (k : ℕ) (p : Pump) (s : Call)
    → Delivers (view (stands (some k) p s))
    → Delivers (view (take_lock p (stands (some k) p s)))
unfolding take_lock taken
locked-Delivers k not_started s h = h
locked-Delivers k receiving s h = h
locked-Delivers k (sending m j) s h = h
locked-Delivers k (closing j) s h = h
locked-Delivers k (stopped b) s h = h
locked-Delivers k crashed s h = h
locked-Delivers k (received m) s h = record {
  counted = h.counted;
  placed = (h.placed.0, h.placed.1, refl, refl);
  reached = h.reached;
  fresh = λ e. cc;
}
locked-Delivers k saw_end s h = record {
  counted = h.counted;
  placed = (h.placed.0, refl, inr refl);
  reached = h.reached;
  fresh = h.fresh;
}
locked-Delivers k saw_error s h = record {
  counted = h.counted;
  placed = (h.placed.0, h.placed.1, refl);
  reached = tt;
  fresh = λ e. cc;
}

write_here :
    (xs : List Stream) (j k : ℕ) (v : Stream)
    → j ≡ k
    → j < length xs
    → get_or (set xs j v) k no_stream ≡ v
write_here xs j k v e h =
    ap (λ i. get_or (set xs j v) i no_stream) (sym e) ∙ get_or-set_same xs j v no_stream h

sent_to-Delivers :
    (k m j : ℕ) (ok : Bool) (s : Call)
    → Delivers (view (stands (some k) (sending m j) s))
    → Delivers (view (sent_to ok m j (stands (some k) (sending m j) s)))
unfolding sent_to
sent_to-Delivers k m j false s h = record {
  counted = h.counted;
  placed = (h.placed.0, h.placed.1, h.placed.2);
  reached = tt;
  fresh = λ e. cc (e, h.placed.2);
}
sent_to-Delivers k m j true s h =
    let same : j ≡ k = h.placed.3 in
    let t = give m (get_or s.streams j no_stream) in
    let inside : j < length s.streams = omega (arith, h.counted, same) in
    record {
      counted = length-set s.streams j t ∙ h.counted;
      placed = (h.placed.0, h.placed.1);
      reached =
          ap (λ x. x.got) (write_here s.streams j k t same inside)
          ∙ (ap (λ i. snoc ((get_or s.streams i no_stream).got) m) same ∙ h.reached);
      fresh = λ e. cc (e, h.placed.2);
    }

closed-Delivers :
    (k j : ℕ) (s : Call)
    → Delivers (view (stands (some k) (closing j) s))
    → Delivers (view (pump_step closes (closing j) (stands (some k) (closing j) s)))
unfolding pump_step
closed-Delivers k j s h =
    let t = close (get_or s.streams j no_stream) in
    let after = get_or (set s.streams j t) k no_stream in
    let both : (after.closed ≡ true) × (after.got ≡ (get_or s.streams k no_stream).got) =
      elim (Bool-cases (j == k)) [
        | inl e ↦
            let same : j ≡ k = ground arith in
            let inside : j < length s.streams = omega (arith, h.counted, same) in
            let here = write_here s.streams j k t same inside in
            (
              ap (λ x. x.closed) here,
              ap (λ x. x.got) here ∙ ap (λ i. (get_or s.streams i no_stream).got) same,
            )
        | inr e ↦
            let apart : j ≢ k = λ q. ground arith in
            let other = get_or-set_other s.streams j k t no_stream apart in
            (
              ap (λ x. x.closed) other ∙ elim (h.placed.2) [ inl c ↦ c | inr q ↦ absurd (apart q) ],
              ap (λ x. x.got) other,
            )
      ] in
    record {
      counted = length-set s.streams j t ∙ h.counted;
      placed = (h.placed.0, h.placed.1, both.0);
      reached = both.1 ∙ h.reached;
      fresh = h.fresh;
    }

hear-Delivers :
    (k : ℕ) (c : ClientSays) (s : Call)
    → Delivers (view (stands (some k) receiving s))
    → Delivers (view (hear c (stands (some k) receiving s)))
unfolding hear
hear-Delivers k (says m) s h = record {
  counted = h.counted;
  placed = h.placed;
  reached = ap (λ l. snoc l m) h.reached;
  fresh = λ e. ap (λ l. snoc l m) (h.fresh e);
}
hear-Delivers k half_closes s h = record {
  counted = h.counted;
  placed = h.placed;
  reached = h.reached;
  fresh = h.fresh;
}
hear-Delivers k breaks s h = record {
  counted = h.counted;
  placed = h.placed;
  reached = h.reached;
  fresh = h.fresh;
}

pump_step-not_started : (e : PumpEvent) (s : Call) → pump_step e not_started s ≡ s
unfolding pump_step take_lock
pump_step-not_started (hears c) s = refl
pump_step-not_started locks s = refl
pump_step-not_started (sends ok) s = refl
pump_step-not_started closes s = refl

pump_step-Delivers :
    (o : Option ℕ) (e : PumpEvent) (p : Pump) (s : Call)
    → Delivers (view (stands o p s))
    → Delivers (view (pump_step e p (stands o p s)))
unfolding pump_step
pump_step-Delivers none e p s h =
    subst (λ q. Delivers (view (pump_step e q (stands none p s)))) (sym h.placed.0)
      (rw (pump_step-not_started e (stands none p s)) h)
pump_step-Delivers (some k) locks p s h = locked-Delivers k p s h
pump_step-Delivers (some k) (hears c) receiving s h = hear-Delivers k c s h
pump_step-Delivers (some k) (sends ok) (sending m j) s h = sent_to-Delivers k m j ok s h
pump_step-Delivers (some k) closes (closing j) s h = closed-Delivers k j s h
pump_step-Delivers (some k) e p s h = h

step-Delivers :
    (policy : Str) (n : ℕ) (e : Event) (s : Call)
    → Delivers (view s)
    → Delivers (view (step policy n e s))
unfolding step
step-Delivers policy n (by_handler e) s h = handler_step-Delivers policy n e s.handler s h
step-Delivers policy n (by_pump e) s h = pump_step-Delivers s.ex.cs e s.pump s h

run-Delivers :
    (policy : Str) (n : ℕ) (es : List Event) (s : Call)
    → Delivers (view s)
    → Delivers (view (run policy n es s))
unfolding run
run-Delivers policy n [] s h = h
run-Delivers policy n (e ∷ es) s h =
    run-Delivers policy n es (step policy n e s) (step-Delivers policy n e s h)

new_call-Delivers : (f : FirstMessage) → Delivers (view (new_call f))
unfolding new_call new_exchange
new_call-Delivers (first_is m) = record {
  counted = refl;
  placed = (refl, refl, refl);
  reached = tt;
  fresh = λ e. refl;
}
new_call-Delivers nothing_sent = record {
  counted = refl;
  placed = (refl, refl, refl);
  reached = tt;
  fresh = λ e. refl;
}

abbrev pub is_failed : Pump → Bool
is_failed (stopped b) = b
is_failed _ = false

-- What a reader of the code would ask of the stream in use.
pub record InOrder (s : Call) (k : ℕ) : Type 0 where
  -- it is the last stream that was opened
  pub last : length s.streams ≡ suc k
  -- it has every message that the client sent, once and in order, but for one that the pump holds
  pub all :
      is_failed s.pump ≡ false
      → with_held s.pump ((get_or s.streams k no_stream).got) ≡ s.from_client
  -- the pump has a stream to send to
  pub safe : s.pump ≢ crashed
  -- once the pump has passed the end on, that stream is closed
  pub ended : s.pump ≡ stopped false → (get_or s.streams k no_stream).closed ≡ true

HasAll-held :
    (p : Pump) (got sent : List ℕ)
    → HasAll p got sent
    → is_failed p ≡ false
    → with_held p got ≡ sent
HasAll-held not_started got sent h e = h
HasAll-held receiving got sent h e = h
HasAll-held (received m) got sent h e = h
HasAll-held (sending m j) got sent h e = h
HasAll-held saw_end got sent h e = h
HasAll-held saw_error got sent h e = h
HasAll-held (closing j) got sent h e = h
HasAll-held (stopped true) got sent h e = cc
HasAll-held (stopped false) got sent h e = h
HasAll-held crashed got sent h e = h

-- Whatever the order in which the handler and the pump run, and however often the call is moved to another
-- backend: the stream in use is the last one that was opened; it has been given exactly what the client
-- sent, in order, less the one message that the pump may hold, unless sending to it or receiving from
-- the client has failed; the pump never uses a stream that is not there; and when the pump is done
-- after the client's end, that stream, and not one that it replaced, has been closed.
pub run-InOrder :
    (policy : Str) (n : ℕ) (es : List Event) (f : FirstMessage) (k : ℕ)
    → (run policy n es (new_call f)).ex.cs ≡ some k
    → InOrder (run policy n es (new_call f)) k
run-InOrder policy n es f k e =
    let s = run policy n es (new_call f) in
    let h = run-Delivers policy n es (new_call f) (new_call-Delivers f) in
    let phase : Phase s.pump k (view s) = subst (λ o. Placed o (view s)) e h.placed in
    let reached : HasAll s.pump ((get_or s.streams k no_stream).got) s.from_client =
      subst (λ o. Reached o (view s)) e h.reached in
    record {
      last = h.counted ∙ ap count e;
      all = λ u. HasAll-held s.pump ((get_or s.streams k no_stream).got) s.from_client reached u;
      safe = λ c. subst (λ p. Phase p k (view s)) c phase;
      ended = λ c. (subst (λ p. Phase p k (view s)) c phase).2;
    }

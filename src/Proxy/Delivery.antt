-- ===== src/Proxy/Delivery.antt =====
-- internal/proxy/proxy.go: the messages of the client against the stream in use, through the steps of the handler.
use nw_lb_go.Base.{
  ℕ, suc, ◌+◌, ◌≡◌, refl, ap, ◌∙◌, sym, Bool, true, false, inl, inr, ◌⊎◌, if◌then◌else◌, List,
  Option, none, some, length, length-snoc, get_or, snoc, Str, get_or-snoc, not, ◌||◌, if_elim, leb,
  ◌==◌, ◌&&◌, Bool-cases, arith,
}
use nw_lb_go.Proxy.Types.{Err}
use nw_lb_go.Proxy.Exchange.{
  Stream, Handler, attempt, relaying, judging, returned, Pump, not_started, receiving, received,
  sending, saw_end, saw_error, closing, stopped, crashed, Call, Opened, dial_error, first_error,
  opens, Installed, set_stream, install,
}
use nw_lb_go.Proxy.System.{
  HandlerEvent, tries, relays, ends, judges, try_candidate, send_message, send_header, relay_ends,
  judge, handler_step, no_stream,
}
use nw_lb_go.Proxy.View.{
  View, view, conclude-view, send_message-view, judge-view, send_header-view, relay_ends-view,
}

-- A list with the message that the pump holds.
abbrev pub with_held : Pump → List ℕ → List ℕ
with_held (received m) xs = snoc xs m
with_held (sending m k) xs = snoc xs m
with_held _ xs = xs

abbrev pub count : Option ℕ → ℕ
count none = 0
count (some k) = suc k

abbrev pub stream_in_use : View → Stream
stream_in_use v = elim v.cs [ none ↦ no_stream | some k ↦ get_or v.streams k no_stream ]

-- What holds of stream `k`, the one in use, at each place of the pump.
abbrev pub Phase : Pump → ℕ → View → Type 0
Phase not_started k v =
    (v.pumping ≡ false)
    × (v.committed ≡ false)
    × (v.half_closed ≡ true)
    × ((get_or v.streams k no_stream).closed ≡ true)
Phase receiving k v = (v.pumping ≡ true) × (v.half_closed ≡ false)
Phase (received m) k v = (v.pumping ≡ true) × (v.half_closed ≡ false)
Phase (sending m j) k v =
    (v.pumping ≡ true) × (v.half_closed ≡ false) × (v.committed ≡ true) × (j ≡ k)
Phase saw_end k v = (v.pumping ≡ true) × (v.half_closed ≡ false)
Phase saw_error k v = (v.pumping ≡ true) × (v.half_closed ≡ false)
Phase (closing j) k v =
    (v.pumping ≡ true)
    × (v.half_closed ≡ true)
    × (((get_or v.streams k no_stream).closed ≡ true) ⊎ (j ≡ k))
Phase (stopped false) k v =
    (v.pumping ≡ true) × (v.half_closed ≡ true) × ((get_or v.streams k no_stream).closed ≡ true)
Phase (stopped true) k v = (v.pumping ≡ true) × (v.half_closed ≡ false) × (v.committed ≡ true)
Phase crashed k v = ⊥

abbrev pub Placed : Option ℕ → View → Type 0
Placed none v = (v.pump ≡ not_started) × (v.committed ≡ false) × (v.pumping ≡ false)
Placed (some k) v = Phase v.pump k v

-- The stream has every message of the client but the one that the pump holds, unless the pump failed.
abbrev pub HasAll : Pump → List ℕ → List ℕ → Type 0
HasAll (stopped true) got sent = Unit
HasAll p got sent = with_held p got ≡ sent

abbrev pub Reached : Option ℕ → View → Type 0
Reached none v = Unit
Reached (some k) v = HasAll v.pump ((get_or v.streams k no_stream).got) v.from_client

pub record Delivers (v : View) : Type 0 where
  pub counted : length v.streams ≡ count v.cs
  pub placed : Placed v.cs v
  pub reached : Reached v.cs v
  pub fresh : v.committed ≡ false → v.from_client ≡ with_held v.pump v.firsts

-- What `install` leaves when it opens a stream.
abbrev replaced : ℕ → View → View
replaced i v = record v {
  cs = some (length v.streams);
  pumping = v.pumping || not v.half_closed;
  pump = if v.half_closed || v.pumping then v.pump else receiving;
  streams = snoc v.streams (record { candidate = i; got = v.firsts; closed = v.half_closed });
}

set_stream-view : (i : ℕ) (s : Call) → view (set_stream i s) ≡ replaced i (view s)
unfolding set_stream
set_stream-view i s = elim (Bool-cases s.ex.half_closed) [
  | inl e ↦ elim (Bool-cases s.ex.pumping) [ inl f ↦ rw (e, f) refl | inr f ↦ rw (e, f) refl ]
  | inr e ↦ elim (Bool-cases s.ex.pumping) [ inl f ↦ rw (e, f) refl | inr f ↦ rw (e, f) refl ]
]

HasAll-with_held : (p : Pump) (got sent : List ℕ) → with_held p got ≡ sent → HasAll p got sent
HasAll-with_held not_started got sent h = h
HasAll-with_held receiving got sent h = h
HasAll-with_held (received m) got sent h = h
HasAll-with_held (sending m j) got sent h = h
HasAll-with_held saw_end got sent h = h
HasAll-with_held saw_error got sent h = h
HasAll-with_held (closing j) got sent h = h
HasAll-with_held (stopped true) got sent h = tt
HasAll-with_held (stopped false) got sent h = h
HasAll-with_held crashed got sent h = h

idle-Phase : (p : Pump) (k : ℕ) (v : View) → Phase p k v → v.pumping ≡ false → p ≡ not_started
idle-Phase not_started k v h e = refl
idle-Phase receiving k v h e = cc
idle-Phase (received m) k v h e = cc
idle-Phase (sending m j) k v h e = cc
idle-Phase saw_end k v h e = cc
idle-Phase saw_error k v h e = cc
idle-Phase (closing j) k v h e = cc
idle-Phase (stopped true) k v h e = cc
idle-Phase (stopped false) k v h e = cc
idle-Phase crashed k v h e = elim h [ ]

idle-Placed : (o : Option ℕ) (v : View) → Placed o v → v.pumping ≡ false → v.pump ≡ not_started
idle-Placed none v h e = h.0
idle-Placed (some k) v h e = idle-Phase v.pump k v h e

-- A pump that has committed to nothing goes on with the stream that replaces its own.
moved-Phase :
    (p : Pump) (j k : ℕ) (v w : View)
    → Phase p j v
    → v.committed ≡ false
    → w.committed ≡ false
    → w.pumping ≡ v.pumping
    → w.half_closed ≡ v.half_closed
    → (get_or w.streams k no_stream).closed ≡ v.half_closed
    → Phase p k w
moved-Phase not_started j k v w h c d e f g = (e ∙ h.0, d, f ∙ h.2, g ∙ h.2)
moved-Phase receiving j k v w h c d e f g = (e ∙ h.0, f ∙ h.1)
moved-Phase (received m) j k v w h c d e f g = (e ∙ h.0, f ∙ h.1)
moved-Phase (sending m i) j k v w h c d e f g = cc
moved-Phase saw_end j k v w h c d e f g = (e ∙ h.0, f ∙ h.1)
moved-Phase saw_error j k v w h c d e f g = (e ∙ h.0, f ∙ h.1)
moved-Phase (closing i) j k v w h c d e f g = (e ∙ h.0, f ∙ h.1, inl (g ∙ h.1))
moved-Phase (stopped true) j k v w h c d e f g = cc
moved-Phase (stopped false) j k v w h c d e f g = (e ∙ h.0, f ∙ h.1, g ∙ h.1)
moved-Phase crashed j k v w h c d e f g = elim h [ ]

replaced-stream :
    (i : ℕ) (v : View)
    → get_or (replaced i v).streams (length v.streams) no_stream
      ≡ record { candidate = i; got = v.firsts; closed = v.half_closed }
replaced-stream i v =
    get_or-snoc v.streams (record { candidate = i; got = v.firsts; closed = v.half_closed })
      no_stream

replaced-Phase :
    (cs : Option ℕ) (i : ℕ) (v : View)
    → Placed cs v
    → v.committed ≡ false
    → Phase (replaced i v).pump (length v.streams) (replaced i v)
replaced-Phase cs i v h c =
    if_elim (λ p. Phase p (length v.streams) (record (replaced i v) { pump = p }))
      (v.half_closed || v.pumping) (kept cs h) (λ idle. ground arith)
  where
    kept :
        (cs : Option ℕ)
        → Placed cs v
        → (v.half_closed || v.pumping) ≡ true
        → Phase v.pump (length v.streams) (record (replaced i v) { pump = v.pump })
    kept (some k) h same =
        moved-Phase v.pump k (length v.streams) v (record (replaced i v) { pump = v.pump }) h c c
          (ground arith) refl (ap (λ t. t.closed) (replaced-stream i v))
    kept none h same =
        let half : v.half_closed ≡ true = ground arith in
        rw (h.0) (ground arith, c, half, ap (λ t. t.closed) (replaced-stream i v) ∙ half)

replaced-held :
    (i : ℕ) (v : View) (xs : List ℕ)
    → Placed v.cs v
    → with_held (replaced i v).pump xs ≡ with_held v.pump xs
replaced-held i v xs h = elim (Bool-cases (v.half_closed || v.pumping)) [
  | inl same ↦ rw same refl
  | inr idle ↦ let at_rest = idle-Placed v.cs v h (ground arith) in rw (idle, at_rest) refl
]

replaced-Delivers : (i : ℕ) (v : View) → v.committed ≡ false → Delivers v → Delivers (replaced i v)
replaced-Delivers i v c h =
    let held = h.fresh c ∙ sym (replaced-held i v v.firsts h.placed) in
    record {
      counted =
          length-snoc v.streams (record { candidate = i; got = v.firsts; closed = v.half_closed });
      placed = replaced-Phase v.cs i v h.placed c;
      reached =
          HasAll-with_held (replaced i v).pump
            ((get_or (replaced i v).streams (length v.streams) no_stream).got) v.from_client
            (ap (λ t. with_held (replaced i v).pump t.got) (replaced-stream i v) ∙ sym held);
      fresh = λ e. held;
    }

install-Delivers :
    (i : ℕ) (o : Opened) (s : Call) → Delivers (view s) → Delivers (view (install i o s).0)
unfolding install
install-Delivers i o s h = cases o
  where
    opened : s.ex.committed ≡ false → Delivers (view (set_stream i s))
    opened c = rw (set_stream-view i s) (replaced-Delivers i (view s) c h)

    P : Call × Installed → Type 0
    P r = Delivers (view (r.0))

    cases : (o : Opened) → P (install i o s)
    cases (dial_error e) = if_elim P s.ex.committed (λ c. h) (λ c. h)
    cases (first_error e) =
        if_elim P s.ex.committed (λ c. h) (λ c. if_elim P s.ex.have_first (λ f. h) (λ f. opened c))
    cases opens = if_elim P s.ex.committed (λ c. h) opened

try_candidate-Delivers :
    (n i : ℕ) (le : Option Err) (admitted : Bool) (o : Opened) (s : Call)
    → Delivers (view s)
    → Delivers (view (try_candidate n i le admitted o s))
unfolding try_candidate
try_candidate-Delivers n i le admitted o s h =
    let P : Call → Type 0 = λ t. Delivers (view t) in
    let t : Call = record s { attempts = suc s.attempts } in
    let r : Call × Installed = install i o t in
    if_elim P (leb n i) (λ a. h)
      (λ a.
        if_elim P (not admitted && not (i + 1 == n)) (λ b. h)
          (λ b. rw (conclude-view i le (r.0) (r.1)) (install-Delivers i o t h)))

pub handler_step-Delivers :
    (policy : Str) (n : ℕ) (e : HandlerEvent) (a : Handler) (s : Call)
    → Delivers (view s)
    → Delivers (view (handler_step policy n e a s))
unfolding handler_step
handler_step-Delivers policy n e a s h = go e a
  where
    same : (t : Call) → view t ≡ view s → Delivers (view t)
    same t e = rw e h

    go : (e : HandlerEvent) (a : Handler) → Delivers (view (handler_step policy n e a s))
    go (tries admitted o) (attempt i le) = try_candidate-Delivers n i le admitted o s h
    go (tries admitted o) (relaying i k) = h
    go (tries admitted o) (judging i k e f) = h
    go (tries admitted o) (returned r) = h
    go (relays m g f) (attempt i le) = h
    go (relays m g f) (relaying i k) =
        if_elim (λ t. Delivers (view t)) s.ex.sent_header
          (λ a. same (send_message i k m f s) (send_message-view i k m f s))
          (λ a. same (send_header i k m g f s) (send_header-view i k m g f s))
    go (relays m g f) (judging i k e u) = h
    go (relays m g f) (returned r) = h
    go (ends r g x) (attempt i le) = h
    go (ends r g x) (relaying i k) = same (relay_ends i k r g x s) (relay_ends-view i k r g x s)
    go (ends r g x) (judging i k e f) = h
    go (ends r g x) (returned z) = h
    go (judges c l g) (attempt i le) = h
    go (judges c l g) (relaying i k) = h
    go (judges c l g) (judging i k e f) =
        same (judge policy n i k e f c l g s) (judge-view policy n i k e f c l g s)
    go (judges c l g) (returned r) = h

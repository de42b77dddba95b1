-- ===== src/Proxy/Side.antt =====
-- internal/proxy/proxy.go: what the handler alone changes, which no step of the pump does.
use nw_lb_go.Base.{ℕ, suc, Bool, true, false, not, List, length, get_or}
use nw_lb_go.Proxy.Types.{first_list}
use nw_lb_go.Proxy.Exchange.{
  Stream, Handler, Pump, receiving, received, sending, saw_end, saw_error, closing, Call, Opened,
  Installed, not_replayable, install_failed, installed, install,
}
use nw_lb_go.Base.{◌≡◌, refl, length-set, if_elim, length-snoc}
use nw_lb_go.Proxy.Exchange.{Booking, dial_error, first_error, opens, set_stream}
use nw_lb_go.Proxy.System.{
  PumpEvent, hears, locks, sends, closes, says, half_closes, breaks, pump_step, take_lock, hear,
  sent_to, give, close, no_stream,
}

pub record Side : Type 0 where
  pub handler : Handler
  pub sent_header : Bool
  pub sent_msg : Bool
  pub to_client : List (ℕ × ℕ)
  pub headers : List ℕ
  pub trailers : List ℕ
  pub attempts : ℕ
  pub book : List Booking

abbrev pub side : Call → Side
side s = record {
  handler = s.handler;
  sent_header = s.ex.sent_header;
  sent_msg = s.ex.sent_msg;
  to_client = s.to_client;
  headers = s.headers;
  trailers = s.trailers;
  attempts = s.attempts;
  book = s.book;
}

-- With the number of streams opened so far.
abbrev pub both : Call → Side × ℕ
both s = (side s, length s.streams)

pub pump_step-both : (e : PumpEvent) (p : Pump) (s : Call) → both (pump_step e p s) ≡ both s
unfolding pump_step take_lock hear sent_to
pump_step-both (hears (says m)) receiving s = refl
pump_step-both (hears half_closes) receiving s = refl
pump_step-both (hears breaks) receiving s = refl
pump_step-both locks (received m) s = refl
pump_step-both locks saw_end s = refl
pump_step-both locks saw_error s = refl
pump_step-both (sends true) (sending m k) s =
    let t = give m (get_or s.streams k no_stream) in rw (length-set s.streams k t) refl
pump_step-both (sends false) (sending m k) s = refl
pump_step-both closes (closing k) s =
    let t = close (get_or s.streams k no_stream) in rw (length-set s.streams k t) refl
pump_step-both e p s = refl

-- A stream is opened exactly if `install` returns one.
abbrev pub Opening : ℕ → Installed → ℕ → Type 0
Opening before not_replayable after = after ≡ before
Opening before (install_failed e) after = after ≡ before
Opening before (installed k) after = after ≡ suc before

pub set_stream-side : (i : ℕ) (s : Call) → side (set_stream i s) ≡ side s
unfolding set_stream
set_stream-side i s =
    let P : Call → Type 0 = λ t. side t ≡ side s in
    if_elim P s.ex.half_closed (λ a. refl)
      (λ a. if_elim P (not s.ex.pumping) (λ b. refl) (λ b. refl))

length-set_stream : (i : ℕ) (s : Call) → length (set_stream i s).streams ≡ suc (length s.streams)
unfolding set_stream
length-set_stream i s =
    let P : Call → Type 0 = λ t. length t.streams ≡ suc (length s.streams) in
    let t : Stream = record { candidate = i; got = first_list s.ex; closed = s.ex.half_closed } in
    let e = length-snoc s.streams t in
    if_elim P s.ex.half_closed (λ a. e) (λ a. if_elim P (not s.ex.pumping) (λ b. e) (λ b. e))

pub install-side :
    (i : ℕ) (o : Opened) (s : Call)
    → let r = install i o s in
      (side (r.0) ≡ side s) × Opening (length s.streams) (r.1) (length (r.0).streams)
unfolding install
install-side i o s = cases o
  where
    P : Call × Installed → Type 0
    P r = (side (r.0) ≡ side s) × Opening (length s.streams) (r.1) (length (r.0).streams)

    opened : P (set_stream i s, installed (length s.streams))
    opened = (set_stream-side i s, length-set_stream i s)

    cases : (o : Opened) → P (install i o s)
    cases (dial_error e) = if_elim P s.ex.committed (λ c. (refl, refl)) (λ c. (refl, refl))
    cases (first_error e) =
        if_elim P s.ex.committed (λ c. (refl, refl))
          (λ c. if_elim P s.ex.have_first (λ f. (refl, refl)) (λ f. opened))
    cases opens = if_elim P s.ex.committed (λ c. (refl, refl)) (λ c. opened)

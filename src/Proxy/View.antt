-- ===== src/Proxy/View.antt =====
-- internal/proxy/proxy.go: what the two goroutines share, which no step of the handler changes but `install`.
use nw_lb_go.Base.{ℕ, ◌≡◌, refl, ◌∙◌, Bool, true, List, Option, none, some, snoc, Str, if_elim}
use nw_lb_go.Proxy.Types.{Err, first_list}
use nw_lb_go.Proxy.Retry.{can_retry}
use nw_lb_go.Proxy.Exchange.{
  Stream, Pump, Call, Installed, not_replayable, install_failed, installed, HeaderReply,
  header_error, header_is, forward_header, book_outcome, finish,
}
use nw_lb_go.Proxy.System.{
  conclude, relay_failed, upstream_ended, send_message, send_header, relay_ends, judge,
}

-- What the two goroutines share, and what the pump has.
pub record View : Type 0 where
  pub cs : Option ℕ
  pub pumping : Bool
  pub committed : Bool
  pub half_closed : Bool
  pub firsts : List ℕ
  pub pump : Pump
  pub streams : List Stream
  pub from_client : List ℕ

abbrev pub view : Call → View
view s = record {
  cs = s.ex.cs;
  pumping = s.ex.pumping;
  committed = s.ex.committed;
  half_closed = s.ex.half_closed;
  firsts = first_list s.ex;
  pump = s.pump;
  streams = s.streams;
  from_client = s.from_client;
}

pub conclude-view :
    (i : ℕ) (le : Option Err) (s : Call) (r : Installed) → view (conclude i le s r) ≡ view s
unfolding conclude book_outcome
conclude-view i le s not_replayable = refl
conclude-view i le s (install_failed e) = refl
conclude-view i le s (installed k) = refl

pub send_message-view :
    (i k m : ℕ) (f : Option Err) (s : Call) → view (send_message i k m f s) ≡ view s
unfolding send_message relay_failed book_outcome
send_message-view i k m none s = refl
send_message-view i k m (some e) s = refl

forward_header-view : (k : ℕ) (h : HeaderReply) (s : Call) → view (forward_header k h s) ≡ view s
unfolding forward_header
forward_header-view k (header_error e) s = refl
forward_header-view k (header_is empty (some e)) s = refl
forward_header-view k (header_is empty none) s =
    let P : Call → Type 0 = λ t. view t ≡ view s in
    if_elim P s.ex.sent_header (λ a. refl) (λ a. if_elim P empty (λ b. refl) (λ b. refl))

finish-view : (k : ℕ) (r : Option Err) (h : HeaderReply) (s : Call) → view (finish k r h s) ≡ view s
unfolding finish
finish-view k r h s =
    if_elim (λ t. view t ≡ view s) s.ex.upstream_done (λ d. forward_header-view k h s) (λ d. refl)

pub judge-view :
    (policy : Str) (n i k : ℕ) (e : Err) (from_setup ended left : Bool) (h : HeaderReply) (s : Call)
    → view (judge policy n i k e from_setup ended left h s) ≡ view s
unfolding judge
judge-view policy n i k e from_setup ended left h s =
    let P : Call → Type 0 = λ t. view t ≡ view s in
    if_elim P (can_retry policy s.ex ended left e i n from_setup) (λ r. refl)
      (λ r. if_elim P from_setup (λ f. refl) (λ f. finish-view k (some e) h s))

pub send_header-view :
    (i k m : ℕ) (h : HeaderReply) (f : Option Err) (s : Call)
    → view (send_header i k m h f s) ≡ view s
unfolding send_header relay_failed upstream_ended book_outcome
send_header-view i k m (header_error e) f s = refl
send_header-view i k m (header_is empty (some e)) f s = refl
send_header-view i k m (header_is empty none) f s =
    send_message-view i k m f
      (record s { ex = record (s.ex) { sent_header = true }; headers = snoc s.headers k })

pub relay_ends-view :
    (i k : ℕ) (r : Option Err) (h g : HeaderReply) (s : Call)
    → view (relay_ends i k r h g s) ≡ view s
unfolding relay_ends relay_failed upstream_ended book_outcome
relay_ends-view i k (some e) h g s = refl
relay_ends-view i k none h g s =
    let t = forward_header k h (upstream_ended s) in
    finish-view k none g (book_outcome i none t) ∙ forward_header-view k h (upstream_ended s)

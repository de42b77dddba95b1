-- ===== src/Proxy/Output.antt =====
-- internal/proxy/proxy.go: what has reached the client, through the steps that follow `install`.
use nw_lb_go.Base.{ℕ, Bool, true, false, List, [], Option, none, some, length, snoc, Str}
use nw_lb_go.Proxy.Types.{Err, Exchange}
use nw_lb_go.Proxy.Retry.{can_retry}
use nw_lb_go.Proxy.Exchange.{
  Handler, attempt, relaying, judging, returned, Call, HeaderReply, header_error, header_is,
  forward_header, book_outcome, finish,
}
use nw_lb_go.Base.{◌≡◌, refl, sym, subst, All, All-snoc, if_elim, ◌≤◌, arith}
use nw_lb_go.Proxy.Retry.{can_retry}
use nw_lb_go.Proxy.System.{
  relay_failed, upstream_ended, send_message, send_header, relay_ends, judge,
}
use nw_lb_go.Proxy.Side.{Side, side}

-- What has reached the client, and the flags of `exchange` about it.
pub record Output : Type 0 where
  pub sent_header : Bool
  pub sent_msg : Bool
  pub to_client : List (ℕ × ℕ)
  pub headers : List ℕ
  pub trailers : List ℕ

abbrev pub output_of : Side → Output
output_of v = record {
  sent_header = v.sent_header;
  sent_msg = v.sent_msg;
  to_client = v.to_client;
  headers = v.headers;
  trailers = v.trailers;
}

abbrev pub output : Call → Output
output s = output_of (side s)

-- Nothing has been sent to the client.
pub record Unseen (o : Output) : Type 0 where
  pub messages : o.to_client ≡ []
  pub heads : o.headers ≡ []
  pub ends : o.trailers ≡ []

-- Everything that the client has was sent by stream `k`, and at most one header.
pub record OnlyFrom (k : ℕ) (o : Output) : Type 0 where
  pub messages : All (λ p. p.0 ≡ k) o.to_client
  pub heads : All (λ j. j ≡ k) o.headers
  pub ends : All (λ j. j ≡ k) o.trailers
  pub one_header : length o.headers ≤ 1
  pub one_trailer : length o.trailers ≤ 1

-- The call goes on: the flags say what was sent, and there is no trailer yet.
pub record Partly (k : ℕ) (o : Output) : Type 0 where
  pub from : OnlyFrom k o
  pub headless : o.sent_header ≡ false → o.headers ≡ []
  pub silent : o.sent_msg ≡ false → o.to_client ≡ []
  pub no_end : o.trailers ≡ []

abbrev pub Shown : Handler → Output → Type 0
Shown (attempt i le) o = Unseen o
Shown (relaying i k) o = Partly k o
Shown (judging i k e true) o = Unseen o
Shown (judging i k e false) o = Partly k o
Shown (returned e) o = (k : ℕ) × OnlyFrom k o

pub Unseen-OnlyFrom : (k : ℕ) (o : Output) → Unseen o → OnlyFrom k o
Unseen-OnlyFrom k o u = record {
  messages = rw (u.messages) tt;
  heads = rw (u.heads) tt;
  ends = rw (u.ends) tt;
  one_header = rw (u.heads) (omega arith);
  one_trailer = rw (u.ends) (omega arith);
}

pub Unseen-Partly : (k : ℕ) (o : Output) → Unseen o → Partly k o
Unseen-Partly k o u = record {
  from = Unseen-OnlyFrom k o u;
  headless = λ e. u.heads;
  silent = λ e. u.messages;
  no_end = u.ends;
}

Partly-header :
    (k : ℕ) (o : Output)
    → o.sent_header ≡ false
    → Partly k o
    → Partly k (record o { sent_header = true; headers = snoc o.headers k })
Partly-header k o e h = record {
  from = record {
    messages = h.from.messages;
    heads = All-snoc (λ j. j ≡ k) o.headers k h.from.heads refl;
    ends = h.from.ends;
    one_header = rw (h.headless e) (omega arith);
    one_trailer = h.from.one_trailer;
  };
  headless = λ q. cc;
  silent = h.silent;
  no_end = h.no_end;
}

Partly-message :
    (k m : ℕ) (o : Output)
    → Partly k o
    → Partly k (record o { sent_msg = true; to_client = snoc o.to_client (k, m) })
Partly-message k m o h = record {
  from = record {
    messages = All-snoc (λ p. p.0 ≡ k) o.to_client (k, m) h.from.messages refl;
    heads = h.from.heads;
    ends = h.from.ends;
    one_header = h.from.one_header;
    one_trailer = h.from.one_trailer;
  };
  headless = h.headless;
  silent = λ q. cc;
  no_end = h.no_end;
}

forward_header-Partly :
    (k : ℕ) (h : HeaderReply) (s : Call)
    → Partly k (output s)
    → Partly k (output (forward_header k h s))
unfolding forward_header
forward_header-Partly k h s p = go h
  where
    P : Call → Type 0
    P t = Partly k (output t)

    go : (h : HeaderReply) → P (forward_header k h s)
    go (header_error e) = p
    go (header_is empty (some e)) = p
    go (header_is empty none) =
        if_elim P s.ex.sent_header (λ a. p)
          (λ a. if_elim P empty (λ b. p) (λ b. Partly-header k (output s) a p))

abbrev pub OnlyFromOne : Call → Type 0
OnlyFromOne s = Shown s.handler (output s)

finish-Shown :
    (k : ℕ) (r : Option Err) (h : HeaderReply) (s : Call)
    → Partly k (output s)
    → OnlyFromOne (finish k r h s)
unfolding finish
finish-Shown k r h s p =
    let t = forward_header k h s in
    let q = forward_header-Partly k h s p in
    if_elim OnlyFromOne s.ex.upstream_done
      (λ d. (
        k,
        record {
          messages = q.from.messages;
          heads = q.from.heads;
          ends = All-snoc (λ j. j ≡ k) t.trailers k q.from.ends refl;
          one_header = q.from.one_header;
          one_trailer = rw (q.no_end) (omega arith);
        },
      ))
      (λ d. (k, p.from))

relay_failed-Shown :
    (i k : ℕ) (e : Err) (s : Call) → Partly k (output s) → OnlyFromOne (relay_failed i k e s)
unfolding relay_failed book_outcome
relay_failed-Shown i k e s p = p

-- `send_message` keeps the handler, or a failure moves it on.
pub send_message-Shown :
    (i k m : ℕ) (f : Option Err) (s : Call)
    → s.handler ≡ relaying i k
    → Partly k (output s)
    → OnlyFromOne (send_message i k m f s)
unfolding send_message relay_failed book_outcome
send_message-Shown i k m (some e) s at p = p
send_message-Shown i k m none s at p =
    let t : Output = record (output s) { sent_msg = true; to_client = snoc s.to_client (k, m) } in
    subst (λ h. Shown h t) (sym at) (Partly-message k m (output s) p)

pub send_header-Shown :
    (i k m : ℕ) (h : HeaderReply) (f : Option Err) (s : Call)
    → s.handler ≡ relaying i k
    → s.ex.sent_header ≡ false
    → Partly k (output s)
    → OnlyFromOne (send_header i k m h f s)
unfolding send_header relay_failed book_outcome upstream_ended
send_header-Shown i k m (header_error e) f s at bare p = p
send_header-Shown i k m (header_is empty (some e)) f s at bare p = p
send_header-Shown i k m (header_is empty none) f s at bare p =
    send_message-Shown i k m f
      (record s { ex = record (s.ex) { sent_header = true }; headers = snoc s.headers k }) at
      (Partly-header k (output s) bare p)

pub relay_ends-Shown :
    (i k : ℕ) (r : Option Err) (h g : HeaderReply) (s : Call)
    → Partly k (output s)
    → OnlyFromOne (relay_ends i k r h g s)
unfolding relay_ends relay_failed upstream_ended book_outcome
relay_ends-Shown i k (some e) h g s p = p
relay_ends-Shown i k none h g s p =
    finish-Shown k none g (book_outcome i none (forward_header k h (upstream_ended s)))
      (forward_header-Partly k h (upstream_ended s) p)

-- An attempt is never repeated once the client has been sent anything.
pub can_retry-unsent :
    (policy : Str) (e : Exchange) (ended left : Bool) (err : Err) (i n : ℕ) (from_setup : Bool)
    → can_retry policy e ended left err i n from_setup ≡ true
    → (e.sent_header ≡ false) × (e.sent_msg ≡ false)
unfolding can_retry
can_retry-unsent policy e ended left err i n from_setup h = ground arith

pub judge-Shown :
    (policy : Str) (n i k : ℕ) (e : Err) (from_setup ended left : Bool) (h : HeaderReply) (s : Call)
    → Shown (judging i k e from_setup) (output s)
    → OnlyFromOne (judge policy n i k e from_setup ended left h s)
unfolding judge
judge-Shown policy n i k e true ended left h s p =
    if_elim OnlyFromOne (can_retry policy s.ex ended left e i n true) (λ r. p)
      (λ r. (0, Unseen-OnlyFrom 0 (output s) p))
judge-Shown policy n i k e false ended left h s p =
    if_elim OnlyFromOne (can_retry policy s.ex ended left e i n false)
      (λ r.
        let un = can_retry-unsent policy s.ex ended left e i n false r in
        record { messages = p.silent un.1; heads = p.headless un.0; ends = p.no_end })
      (λ r. finish-Shown k (some e) h s p)

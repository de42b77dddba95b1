-- ===== src/Proxy/Budget.antt =====
-- internal/proxy/proxy.go: attempts, outcomes and streams, through the steps that follow `install`.
use nw_lb_go.Base.{
  ℕ, suc, ◌+◌, Bool, true, false, if◌then◌else◌, Option, none, some, length, snoc, Str,
}
use nw_lb_go.Proxy.Types.{Err, to_status, Exchange}
use nw_lb_go.Proxy.Retry.{can_retry}
use nw_lb_go.Proxy.Exchange.{
  Handler, attempt, relaying, judging, returned, Call, HeaderReply, header_error, header_is,
  forward_header, book_outcome, finish,
}
use nw_lb_go.Base.{◌≡◌, ◌∙◌, refl, sym, subst, length-snoc, if_elim, ◌≤◌, ◌<◌, arith, str_eq}
use nw_lb_go.Config.Types.{retry_none, retry_unavailable}
use nw_lb_go.Middleware.Guard.{is_failure}
use nw_lb_go.Proxy.Exchange.{recorded}
use nw_lb_go.Proxy.Types.{code_of}
use nw_lb_go.Proxy.System.{
  relay_failed, upstream_ended, send_message, send_header, relay_ends, judge,
}
use nw_lb_go.Proxy.Side.{Side, both}

-- The attempts, the outcomes booked and the streams opened so far.
pub record Counts : Type 0 where
  pub attempts : ℕ
  pub booked : ℕ
  pub opened : ℕ

abbrev pub counts_of : Side × ℕ → Counts
counts_of v = record { attempts = (v.0).attempts; booked = length (v.0).book; opened = v.1 }

abbrev pub counts : Call → Counts
counts s = counts_of (both s)

-- What the retry policy allows: the policy "unavailable" alone opens more than one stream, and the policy
-- "none" allows one attempt.
pub record Allowed (policy : Str) (opened attempts : ℕ) (c : Counts) : Type 0 where
  pub streams : str_eq policy retry_unavailable ≡ false → c.opened ≤ opened
  pub tries : str_eq policy retry_none ≡ true → c.attempts ≤ attempts

abbrev pub Tally : Str → ℕ → Handler → Counts → Type 0
Tally policy n (attempt i le) c =
    (c.attempts ≡ c.booked)
    × (c.attempts ≤ i)
    × (i ≤ n)
    × (1 ≤ n → i ≡ n → 1 ≤ c.attempts)
    × Allowed policy 0 0 c
Tally policy n (relaying i k) c =
    (c.attempts ≡ suc c.booked)
    × (c.attempts ≤ suc i)
    × (i < n)
    × (1 ≤ c.attempts)
    × Allowed policy 1 1 c
Tally policy n (judging i k e from_setup) c =
    (c.attempts ≡ c.booked)
    × (c.attempts ≤ suc i)
    × (i < n)
    × (1 ≤ c.attempts)
    × Allowed policy (if from_setup then 0 else 1) 1 c
Tally policy n (returned r) c =
    (c.attempts ≡ c.booked) × (c.attempts ≤ n) × (1 ≤ n → 1 ≤ c.attempts) × Allowed policy 1 1 c

abbrev pub Tallied : Str → ℕ → Call → Type 0
Tallied policy n s = Tally policy n s.handler (counts s)

pub Allowed-mono :
    (policy : Str) (a b c d : ℕ) (t : Counts)
    → a ≤ b
    → c ≤ d
    → Allowed policy a c t
    → Allowed policy b d t
Allowed-mono policy a b c d t h k p = record {
  streams = λ e. (let q = p.streams e in omega arith);
  tries = λ e. (let q = p.tries e in omega arith);
}

-- Another attempt is made after a stream was used only under the policy "unavailable", and under the
-- policy "none" never.
can_retry-policy :
    (policy : Str) (e : Exchange) (ended left : Bool) (err : Err) (i n : ℕ) (from_setup : Bool)
    → can_retry policy e ended left err i n from_setup ≡ true
    → (i + 1 < n)
      × (str_eq policy retry_none ≡ false)
      × (str_eq policy retry_unavailable ≡ false → from_setup ≡ true)
unfolding can_retry
can_retry-policy policy e ended left err i n from_setup h =
    (ground arith, ground arith, λ u. ground arith)

forward_header-counts :
    (k : ℕ) (h : HeaderReply) (s : Call) → counts (forward_header k h s) ≡ counts s
unfolding forward_header
forward_header-counts k (header_error e) s = refl
forward_header-counts k (header_is empty (some e)) s = refl
forward_header-counts k (header_is empty none) s =
    let P : Call → Type 0 = λ t. counts t ≡ counts s in
    if_elim P s.ex.sent_header (λ a. refl) (λ a. if_elim P empty (λ b. refl) (λ b. refl))

finish-Tally :
    (policy : Str) (n k : ℕ) (r : Option Err) (h : HeaderReply) (s : Call)
    → Tally policy n (returned (to_status r)) (counts s)
    → Tallied policy n (finish k r h s)
unfolding finish
finish-Tally policy n k r h s p =
    if_elim (Tallied policy n) s.ex.upstream_done
      (λ d. subst (Tally policy n (returned (to_status r))) (sym (forward_header-counts k h s)) p)
      (λ d. p)

pub judge-Tally :
    (policy : Str) (n i k : ℕ) (e : Err) (from_setup ended left : Bool) (h : HeaderReply) (s : Call)
    → Tally policy n (judging i k e from_setup) (counts s)
    → Tallied policy n (judge policy n i k e from_setup ended left h s)
unfolding judge
judge-Tally policy n i k e from_setup ended left h s p =
    let most : ℕ = if from_setup then 0 else 1 in
    let done : Allowed policy 1 1 (counts s) =
      Allowed-mono policy most 1 1 1 (counts s) (ground arith) (omega arith) p.4 in
    let last : Tally policy n (returned (to_status (some e))) (counts s) =
      (p.0, omega (arith, p.1, p.2), λ a. p.3, done) in
    if_elim (Tallied policy n) (can_retry policy s.ex ended left e i n from_setup)
      (λ r.
        let q = can_retry-policy policy s.ex ended left e i n from_setup r in
        (
          p.0,
          omega (arith, p.1),
          omega (arith, q.0),
          λ a b. p.3,
          record { streams = λ u. ground (arith, p.4.streams u, q.2 u); tries = λ u. cc (u, q.1) },
        ))
      (λ r.
        if_elim (Tallied policy n) from_setup (λ f. last)
          (λ f. finish-Tally policy n k (some e) h s last))

relay_failed-Tally :
    (policy : Str) (n i k : ℕ) (e : Err) (s : Call)
    → Tally policy n (relaying i k) (counts s)
    → Tallied policy n (relay_failed i k e s)
unfolding relay_failed book_outcome
relay_failed-Tally policy n i k e s p = (
  p.0 ∙ sym (length-snoc s.book (recorded i (is_failure (some (code_of e))))),
  p.1,
  p.2,
  p.3,
  record { streams = p.4.streams; tries = p.4.tries },
)

pub send_message-Tally :
    (policy : Str) (n i k m : ℕ) (f : Option Err) (s : Call)
    → s.handler ≡ relaying i k
    → Tally policy n (relaying i k) (counts s)
    → Tallied policy n (send_message i k m f s)
unfolding send_message
send_message-Tally policy n i k m (some e) s at p = relay_failed-Tally policy n i k e s p
send_message-Tally policy n i k m none s at p = subst (λ h. Tally policy n h (counts s)) (sym at) p

pub send_header-Tally :
    (policy : Str) (n i k m : ℕ) (h : HeaderReply) (f : Option Err) (s : Call)
    → s.handler ≡ relaying i k
    → Tally policy n (relaying i k) (counts s)
    → Tallied policy n (send_header i k m h f s)
unfolding send_header upstream_ended
send_header-Tally policy n i k m (header_error e) f s at p =
    relay_failed-Tally policy n i k e (upstream_ended s) p
send_header-Tally policy n i k m (header_is empty (some e)) f s at p =
    relay_failed-Tally policy n i k e s p
send_header-Tally policy n i k m (header_is empty none) f s at p =
    send_message-Tally policy n i k m f
      (record s { ex = record (s.ex) { sent_header = true }; headers = snoc s.headers k }) at p

pub relay_ends-Tally :
    (policy : Str) (n i k : ℕ) (r : Option Err) (h g : HeaderReply) (s : Call)
    → Tally policy n (relaying i k) (counts s)
    → Tallied policy n (relay_ends i k r h g s)
unfolding relay_ends upstream_ended book_outcome
relay_ends-Tally policy n i k (some e) h g s p =
    relay_failed-Tally policy n i k e (upstream_ended s) p
relay_ends-Tally policy n i k none h g s p =
    let t = forward_header k h (upstream_ended s) in
    let q : Tally policy n (relaying i k) (counts t) =
      subst (Tally policy n (relaying i k)) (sym (forward_header-counts k h (upstream_ended s)))
        p in
    finish-Tally policy n k none g (book_outcome i none t) (
      q.0 ∙ sym (length-snoc t.book (recorded i (is_failure none))),
      omega (arith, q.1, q.2),
      λ a. q.3,
      record { streams = q.4.streams; tries = q.4.tries },
    )

-- ===== src/Loadgen/Balance.antt =====
-- cmd/loadgen/main.go: where the scheduled indices of an open run are.
use nw_lb_go.Base.{
  ℕ, zero, suc, ◌+◌, ◌≤◌, ◌<◌, ◌≡◌, ◌∙◌, refl, ap, sym, ltb, ltb→lt, ltb→le, true, false, not, ◌&&◌,
  if_elim, Bool-cases, inl, inr, List, [], ◌∷◌, length, length-set, length-replicate, get_or, snoc,
  replicate, total, total-set, total-snoc, past_end, arith,
}
use nw_lb_go.Loadgen.Open.{
  Stage, waits, sends, left, Worker, no_worker, Run, Event, schedules, closes, receives, answered,
  interrupted, receive, answer, step, run, start, run_open,
}

-- The weight of the indices that a worker has, in flight or taken.
abbrev pub in_flight : (ℕ → ℕ) → Stage → ℕ
in_flight g (sends i) = g i
in_flight g _ = 0

abbrev pub held : (ℕ → ℕ) → Worker → ℕ
held g k = in_flight g k.stage + total g k.local

abbrev pub has_left : Stage → ℕ
has_left left = 1
has_left _ = 0

abbrev pub is_left : Worker → ℕ
is_left k = has_left k.stage

abbrev pub upto : (ℕ → ℕ) → ℕ → ℕ
upto g zero = 0
upto g (suc n) = upto g n + g n

-- Whatever weight the indices have: those that were scheduled are in the channel, with a worker, or dropped.
pub record Balanced (n c : ℕ) (r : Run) : Type 0 where
  pub balance :
      (g : ℕ → ℕ) → total g r.slots + total (held g) r.workers + total g r.dropped ≡ upto g r.next
  pub intact : r.cancelled ≡ false → r.dropped ≡ []
  pub within : r.next ≤ n
  pub sized : length r.workers ≡ c
  pub shut : r.cancelled ≡ false → r.closed ≡ true → n ≤ r.next
  pub drained :
      r.cancelled ≡ false → 1 ≤ total is_left r.workers → (r.closed ≡ true) × (length r.slots ≡ 0)

-- A worker that waits or sends is one of those in the list.
inside :
    (ks : List Worker) (w : ℕ) (s : Stage)
    → (get_or ks w no_worker).stage ≡ s
    → (left ≡ s → w < length ks)
    → w < length ks
inside ks w s e other = elim (Bool-cases (ltb w (length ks))) [
  | inl h ↦ ltb→lt w (length ks) h
  | inr h ↦
      let out = past_end ks w no_worker no_worker (ltb→le w (length ks) h) in
      other (sym (ap (λ k. k.stage) out.0) ∙ e)
]

receive-Balanced :
    (n c w : ℕ) (s : Stage) (slots : List ℕ) (r : Run)
    → (get_or r.workers w no_worker).stage ≡ s
    → r.slots ≡ slots
    → Balanced n c r
    → Balanced n c (receive w s (get_or r.workers w no_worker) slots r)
unfolding receive
receive-Balanced n c w (sends i) slots r e f h = h
receive-Balanced n c w left slots r e f h = h
receive-Balanced n c w waits (i ∷ rest) r e f h =
    let k = get_or r.workers w no_worker in
    let small : w < length r.workers = inside r.workers w waits e (λ q. cc) in
    if_elim (Balanced n c) r.cancelled
      (λ b. record {
        balance = λ g.
            (let a = total-set (held g) r.workers w (record k { stage = left }) no_worker small in
              let old = h.balance g in
              let x = ap (in_flight g) e in let y = ap (total g) f in omega (arith, a, old, x, y));
        intact = λ q. cc (b, q);
        within = h.within;
        sized = length-set r.workers w (record k { stage = left }) ∙ h.sized;
        shut = h.shut;
        drained = λ q. cc (b, q);
      })
      (λ b. record {
        balance = λ g.
            (let a =
                total-set (held g) r.workers w (record k { stage = sends i }) no_worker small in
              let old = h.balance g in
              let x = ap (in_flight g) e in let y = ap (total g) f in omega (arith, a, old, x, y));
        intact = h.intact;
        within = h.within;
        sized = length-set r.workers w (record k { stage = sends i }) ∙ h.sized;
        shut = h.shut;
        drained = λ q u.
            (let a = total-set is_left r.workers w (record k { stage = sends i }) no_worker small in
              let x = ap has_left e in
              let z = h.drained q (omega (arith, a, x, u)) in
              let y = ap length f in absurd (omega (arith, y, z.1)));
      })
receive-Balanced n c w waits [] r e f h =
    let k = get_or r.workers w no_worker in
    let small : w < length r.workers = inside r.workers w waits e (λ q. cc) in
    if_elim (Balanced n c) r.closed
      (λ b. record {
        balance = λ g.
            (let a = total-set (held g) r.workers w (record k { stage = left }) no_worker small in
              let old = h.balance g in let x = ap (in_flight g) e in omega (arith, a, old, x));
        intact = h.intact;
        within = h.within;
        sized = length-set r.workers w (record k { stage = left }) ∙ h.sized;
        shut = h.shut;
        drained = λ q u. (b, ap length f);
      })
      (λ b. h)

answer-Balanced :
    (n c w : ℕ) (s : Stage) (r : Run)
    → (get_or r.workers w no_worker).stage ≡ s
    → Balanced n c r
    → Balanced n c (answer w s (get_or r.workers w no_worker) r)
unfolding answer
answer-Balanced n c w waits r e h = h
answer-Balanced n c w left r e h = h
answer-Balanced n c w (sends i) r e h =
    let k = get_or r.workers w no_worker in
    let new : Worker = record { stage = waits; local = snoc k.local i } in
    let small : w < length r.workers = inside r.workers w (sends i) e (λ q. cc) in
    record {
      balance = λ g.
          (let a = total-set (held g) r.workers w new no_worker small in
            let old = h.balance g in
            let b = total-snoc g k.local i in
            let x = ap (in_flight g) e in omega (arith, a, old, b, x));
      intact = h.intact;
      within = h.within;
      sized = length-set r.workers w new ∙ h.sized;
      shut = h.shut;
      drained = λ q u.
          (let a = total-set is_left r.workers w new no_worker small in
            let x = ap has_left e in h.drained q (omega (arith, a, x, u)));
    }

step-Balanced :
    (n c size : ℕ) (e : Event) (r : Run) → Balanced n c r → Balanced n c (step n size e r)
unfolding step
step-Balanced n c size schedules r h =
    if_elim (Balanced n c) (not r.closed && ltb r.next n && ltb (length r.slots) size)
      (λ b. record {
        balance = λ g.
            (let a = total-snoc g r.slots r.next in let old = h.balance g in omega (arith, a, old));
        intact = h.intact;
        within = ground (arith, b);
        sized = h.sized;
        shut = λ q u. absurd (ground (arith, b, u));
        drained = λ q u. (let z = h.drained q u in absurd (ground (arith, b, z.0)));
      })
      (λ b. h)
step-Balanced n c size closes r h =
    if_elim (Balanced n c) r.cancelled
      (λ b. record {
        balance = h.balance;
        intact = h.intact;
        within = h.within;
        sized = h.sized;
        shut = λ q. cc (b, q);
        drained = λ q. cc (b, q);
      })
      (λ b.
        if_elim (Balanced n c) (ltb r.next n) (λ d. h)
          (λ d. record {
            balance = h.balance;
            intact = h.intact;
            within = h.within;
            sized = h.sized;
            shut = λ q u. ltb→le r.next n d;
            drained = λ q u. (refl, (h.drained q u).1);
          }))
step-Balanced n c size (receives w) r h =
    receive-Balanced n c w (get_or r.workers w no_worker).stage r.slots r refl refl h
step-Balanced n c size (answered w) r h =
    answer-Balanced n c w (get_or r.workers w no_worker).stage r refl h
step-Balanced n c size interrupted r h = record {
  balance = h.balance;
  intact = λ q. cc;
  within = h.within;
  sized = h.sized;
  shut = λ q. cc;
  drained = λ q. cc;
}

run-Balanced :
    (n c size : ℕ) (es : List Event) (r : Run) → Balanced n c r → Balanced n c (run n size es r)
unfolding run
run-Balanced n c size [] r h = h
run-Balanced n c size (e ∷ es) r h =
    run-Balanced n c size es (step n size e r) (step-Balanced n c size e r h)

abbrev fresh : Worker
fresh = record { stage = waits; local = [] }

total-fresh : (f : Worker → ℕ) (c : ℕ) → f fresh ≡ 0 → total f (replicate c fresh) ≡ 0
total-fresh f zero e = refl
total-fresh f (suc c) e = omega (arith, total-fresh f c e, e)

pub run_open-Balanced : (n c : ℕ) (es : List Event) → Balanced n c (run_open n c es)
unfolding run_open
run_open-Balanced n c es = run-Balanced n c (c + c) es (start c) (start_balanced)
  where
    start_balanced : Balanced n c (start c)
    start_balanced =
        unfold start in
        (record {
          balance = λ g. (let a = total-fresh (held g) c refl in omega (arith, a));
          intact = λ q. refl;
          within = omega arith;
          sized = length-replicate c fresh;
          shut = λ q u. cc;
          drained = λ q u. (let a = total-fresh is_left c refl in absurd (omega (arith, a, u)));
        })

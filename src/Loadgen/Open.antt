-- ===== src/Loadgen/Open.antt =====
-- cmd/loadgen/main.go: `runOpen`, its scheduler and its workers as steps over what they share.
use nw_lb_go.Base.{
  ℕ, suc, ◌+◌, ltb, Bool, true, false, not, ◌&&◌, if◌then◌else◌, List, [], ◌∷◌, ◌++◌, length,
  get_or, set, snoc, replicate,
}

-- A worker waits for a slot, has sent the request of one, or has left its loop; with the indices of the
-- samples that it has taken.
pub data Stage : Type 0 where
  waits : Stage
  sends : ℕ → Stage
  left : Stage

pub record Worker : Type 0 where
  pub stage : Stage
  pub local : List ℕ

-- `next` is the index that the scheduler is at, `slots` the channel, `closed` whether it is closed, and
-- `cancelled` whether the context is done. `dropped` are the slots that a worker took and then left.
pub record Run : Type 0 where
  pub next : ℕ
  pub slots : List ℕ
  pub closed : Bool
  pub cancelled : Bool
  pub workers : List Worker
  pub dropped : List ℕ

pub data Event : Type 0 where
  -- the scheduler sends a slot, or returns
  schedules : Event
  closes : Event
  -- a worker receives from the channel, or its request is answered
  receives : ℕ → Event
  answered : ℕ → Event
  interrupted : Event

abbrev pub no_worker : Worker
no_worker = record { stage = left; local = [] }

unfoldable pub receive : ℕ → Stage → Worker → List ℕ → Run → Run
receive w waits k (i ∷ rest) r =
    if r.cancelled
    then record r {
      slots = rest;
      dropped = i ∷ r.dropped;
      workers = set r.workers w (record k { stage = left });
    }
    else record r { slots = rest; workers = set r.workers w (record k { stage = sends i }) }
receive w waits k [] r =
    if r.closed then record r { workers = set r.workers w (record k { stage = left }) } else r
receive w s k slots r = r

unfoldable pub answer : ℕ → Stage → Worker → Run → Run
answer w (sends i) k r = record r {
  workers = set r.workers w (record { stage = waits; local = snoc k.local i });
}
answer w s k r = r

-- The scheduler returns when it has sent all `n` slots, or when the context is done.
unfoldable pub step : ℕ → ℕ → Event → Run → Run
unfolding receive answer
step n size schedules r =
    if not r.closed && ltb r.next n && ltb (length r.slots) size
    then record r { next = suc r.next; slots = snoc r.slots r.next }
    else r
step n size closes r =
    if r.cancelled
    then record r { closed = true }
    else if ltb r.next n
    then r
    else record r { closed = true }
step n size (receives w) r = let k = get_or r.workers w no_worker in receive w k.stage k r.slots r
step n size (answered w) r = let k = get_or r.workers w no_worker in answer w k.stage k r
step n size interrupted r = record r { cancelled = true }

unfoldable pub run : ℕ → ℕ → List Event → Run → Run
unfolding step
run n size [] r = r
run n size (e ∷ es) r = run n size es (step n size e r)

unfoldable pub start : ℕ → Run
start concurrency = record {
  next = 0;
  slots = [];
  closed = false;
  cancelled = false;
  workers = replicate concurrency (record { stage = waits; local = [] });
  dropped = [];
}

-- What `mergeSamples` makes of the workers' samples.
unfoldable pub merged : List Worker → List ℕ
merged [] = []
merged (k ∷ ks) = k.local ++ merged ks

-- The channel holds two slots for each worker.
unfoldable pub run_open : ℕ → ℕ → List Event → Run
unfolding run start
run_open n concurrency es = run n (concurrency + concurrency) es (start concurrency)

-- ===== src/Ratelimit/Limiter.antt =====
-- internal/ratelimit/ratelimit.go: `Limiter`. The token bucket of golang.org/x/time/rate is third-party
-- code: the parameter `bucket`. So is the hash, `sum64`.
use nw_lb_go.Base.{
  ℕ, suc, ◌+◌, ◌-◌, ◌/◌, ◌%◌, ◌^◌, ℤ, pos, negsuc, leb_ℤ, ltb_ℤ, pos_part, ltb, Bool, true, false,
  not, ◌&&◌, if◌then◌else◌, List, [], ◌∷◌, map, Option, none, some, Str, str_eq, get_or, set,
  length, replicate,
}
use nw_lb_go.Base.Sort.{keep}
use nw_lb_go.Config.Types.{Float, nan, infinity, decimal, above_zero}

abbrev pub shard_count : ℕ
shard_count = 32

abbrev default_ttl : ℤ
default_ttl = pos 300_000_000_000

-- `rate.Limit`: `rate.Inf`, or so many events a second.
pub data Limit : Type 0 where
  inf : Limit
  per_second : Float → Limit

-- A `*rate.Limiter`: `allow_now` asks for one token at an instant. `huge_int` belongs to the platform: the
-- int that a float64 too large for an int becomes.
pub record Bucket : Type 1 where
  pub T : Type 0
  pub new_limiter : Limit → ℤ → T
  pub allow_now : T → ℕ → T × Bool
  pub huge_int : ℤ

pub record Config : Type 0 where
  pub enabled : Bool
  pub rps : Float
  pub burst : ℤ
  pub per_client : Bool
  pub per_client_rps : Float
  pub per_client_burst : ℤ
  pub ttl : ℤ

-- `int(math.Ceil(rps))`, with `huge` for what the platform makes of a number that no int holds: Go leaves
-- that open.
unfoldable pub ceil_int : ℤ → Float → ℤ
ceil_int huge nan = huge
ceil_int huge (infinity up) = huge
ceil_int huge (decimal (pos n) d) =
    let c = (n + d) / suc d in if ltb c (2 ^ 63) then pos c else huge
ceil_int huge (decimal (negsuc n) d) = pos 0

unfoldable pub bucket_params : ℤ → Float → ℤ → Limit × ℤ
unfolding ceil_int
bucket_params huge rps burst =
    let c = ceil_int huge rps in
    let derived = if ltb_ℤ c (pos 1) then pos 1 else c in
    if not (above_zero rps)
    then (inf, pos 0)
    else (per_second rps, if leb_ℤ burst (pos 0) then derived else burst)

module _ (bucket : Bucket) where
  pub record Entry : Type 0 where
    pub lim : bucket.T
    pub last : ℕ

  pub record Limiter : Type 0 where
    pub enabled : Bool
    pub per_client : Bool
    pub ttl : ℤ
    pub global : bucket.T
    pub client_rate : Limit
    pub client_burst : ℤ
    pub shards : List (List (Str × Entry))

  unfoldable pub new : Config → Limiter
  unfolding bucket_params
  new c =
      let (global_rate, global_burst) = bucket_params bucket.huge_int c.rps c.burst in
      let (client_rate, client_burst) =
        bucket_params bucket.huge_int c.per_client_rps c.per_client_burst in
      record {
        enabled = c.enabled;
        per_client = c.per_client;
        ttl = if leb_ℤ c.ttl (pos 0) then default_ttl else c.ttl;
        global = bucket.new_limiter global_rate global_burst;
        client_rate = client_rate;
        client_burst = client_burst;
        shards = replicate shard_count [];
      }

  unfoldable pub entry_of : Str → List (Str × Entry) → Option Entry
  entry_of k [] = none
  entry_of k ((j, e) ∷ m) = if str_eq j k then some e else entry_of k m

  unfoldable pub put_entry : Str → Entry → List (Str × Entry) → List (Str × Entry)
  put_entry k e [] = (k, e) ∷ []
  put_entry k e ((j, f) ∷ m) = if str_eq j k then (k, e) ∷ m else (j, f) ∷ put_entry k e m

  -- The entry that `client` finds or creates.
  unfoldable pub client_entry : Limiter → Str → List (Str × Entry) → ℕ → Entry
  unfolding entry_of
  client_entry l key m now = elim (entry_of key m) [
    | none ↦ record { lim = bucket.new_limiter l.client_rate l.client_burst; last = now }
    | some e ↦ record e { last = now }
  ]

  module _ (sum64 : Str → ℕ) where
    unfoldable pub shard_of : Str → ℕ
    shard_of key = sum64 key % shard_count

    -- `l.client(key).Allow()`: the entry is shared, so the token comes out of the stored bucket.
    unfoldable pub allow_client : Limiter → Str → ℕ → Limiter × Bool
    unfolding client_entry put_entry shard_of
    allow_client l key now =
        let i = shard_of key in
        let m = get_or l.shards i [] in
        let e = client_entry l key m now in
        let (t, ok) = bucket.allow_now e.lim now in
        (record l { shards = set l.shards i (put_entry key (record e { lim = t }) m) }, ok)

    unfoldable pub allow : Limiter → Str → ℕ → Limiter × Bool
    unfolding allow_client
    allow l key now =
        let (t, ok) = bucket.allow_now l.global now in
        let taken = record l { global = t } in
        if not l.enabled
        then (l, true)
        else if not ok
        then (taken, false)
        else if not l.per_client
        then (taken, true)
        else allow_client taken key now

  unfoldable pub per_client : Limiter → Bool
  per_client l = l.enabled && l.per_client

  unfoldable pub count_entries : List (List (Str × Entry)) → ℕ
  count_entries [] = 0
  count_entries (m ∷ ms) = length m + count_entries ms

  unfoldable pub clients : Limiter → ℕ
  unfolding count_entries
  clients l = count_entries l.shards

  unfoldable pub sweep_shard : ℕ → List (Str × Entry) → List (Str × Entry)
  sweep_shard cutoff m = keep (λ (e : Str × Entry). not (ltb (e.1).last cutoff)) m

  unfoldable pub sweep : Limiter → ℕ → Limiter
  unfolding sweep_shard
  sweep l cutoff = record l { shards = map (sweep_shard cutoff) l.shards }

  -- What `janitor` does at a tick of its timer.
  unfoldable pub janitor : Limiter → ℕ → Limiter
  unfolding sweep
  janitor l now = sweep l (now - pos_part l.ttl)

-- ===== src/Examples/Clients.antt =====
-- internal/ratelimit/ratelimit.go on a concrete limiter.
use nw_lb_go.Base.{
  ℕ, ◌-◌, ◌≡◌, refl, ltb, pos, negsuc, true, if◌then◌else◌, ◌&&◌, List, [], ◌∷◌, some, none, Str,
  str_eq, codes, length, pos_part,
}
use nw_lb_go.Config.Types.{decimal}
use nw_lb_go.Base.Sort.{keep}
use nw_lb_go.Ratelimit.Limiter.{
  Bucket, Config, Entry, Limiter, new, allow, shard_of, entry_of, janitor, sweep, sweep_shard,
  allow_client, put_entry, client_entry, bucket_params, ceil_int,
}
use nw_lb_go.Ratelimit.Sweep.{Event, request, run, unless_idle}
use nw_lb_go.Ratelimit.Seen.{last_of, watched, janitor_evicts}
use nw_lb_go.Ratelimit.Clients.{bucket_of, touched, allow_lem}

-- A bucket that starts with its burst and is never refilled.
abbrev drain : Bucket
drain = record {
  T = ℕ;
  new_limiter = λ rate burst. pos_part burst;
  allow_now = λ n now. (n - 1, ltb 0 n);
  huge_int = negsuc 0;
}

abbrev by_length : Str → ℕ
by_length = length

abbrev settings : Config
settings = record {
  enabled = true;
  rps = decimal (pos 5) 0;
  burst = pos 9;
  per_client = true;
  per_client_rps = decimal (pos 1) 0;
  per_client_burst = pos 1;
  ttl = pos 0;
}

abbrev limiter : Limiter drain
limiter = new drain settings

limiter-sized : length limiter.shards ≡ 32
unfolding new
limiter-sized = refl

allow_lem_example :
    let e = touched drain by_length limiter (bucket_of drain by_length limiter (codes "x")) 5 in
    let g = drain.allow_now limiter.global 5 in
    let c = drain.allow_now e.lim 5 in
    let r = allow drain by_length limiter (codes "x") 5 in
    (r.1 ≡ (if limiter.enabled then g.1 && (if limiter.per_client then c.1 else true) else true))
    × (bucket_of drain by_length r.0 (codes "x") ≡ (
        if limiter.enabled && g.1 && limiter.per_client
        then some (record e { lim = c.0 })
        else bucket_of drain by_length limiter (codes "x")))
    × (bucket_of drain by_length r.0 (codes "y") ≡ bucket_of drain by_length limiter (codes "y"))
unfolding str_eq
allow_lem_example = allow_lem drain by_length limiter (codes "x") (codes "y") 5 limiter-sized refl

abbrev seen : Entry drain
seen = record { lim = 3; last = 50 }

abbrev busy : Limiter drain
busy = record limiter { shards = [] ∷ ((codes "x", seen) ∷ []) ∷ [] }

busy-bucket : bucket_of drain by_length busy (codes "x") ≡ some seen
unfolding bucket_of shard_of entry_of str_eq
busy-bucket = refl

abbrev history : List (Event drain by_length)
history = request (codes "x") 5 ∷ request (codes "y") 300_000_000_001 ∷ []

abbrev after_history : Limiter drain
after_history = run drain by_length limiter history

-- A client seen at 5 is evicted at 300_000_000_009, with a TTL of 300_000_000_000; at
-- 300_000_000_005 it is not yet.
janitor_evicts_example :
    let told =
      watched drain by_length
        (codes "x")
        limiter.enabled
        limiter.per_client
        (pos_part limiter.ttl)
        history
        (limiter.global, none) in
    (last_of drain (bucket_of drain by_length after_history (codes "x")) ≡ told.1)
    × (bucket_of drain by_length (janitor drain after_history 300_000_000_009) (codes "x")
        ≡ unless_idle drain by_length
            (pos_part limiter.ttl)
            300_000_000_009
            (bucket_of drain by_length after_history (codes "x")))
janitor_evicts_example = janitor_evicts drain by_length (codes "x") settings history 300_000_000_009

evicted_test :
    bucket_of drain by_length (janitor drain after_history 300_000_000_009) (codes "x") ≡ none
unfolding bucket_of shard_of entry_of janitor sweep sweep_shard keep new allow allow_client
    put_entry client_entry str_eq bucket_params ceil_int
evicted_test = refl

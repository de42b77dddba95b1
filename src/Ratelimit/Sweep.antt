-- ===== src/Ratelimit/Sweep.antt =====
-- internal/ratelimit/ratelimit.go: the runs of `Limiter`, and `sweep` in them.
use nw_lb_go.Base.{
  ℕ, ◌+◌, ◌-◌, pos_part, ◌≡◌, refl, ap, ◌∙◌, ltb, if◌then◌else◌, List, [], ◌∷◌, map, Option, none,
  some, Bool-cases, inl, inr, Str, str_eq, str_eq→eq, str_eq_symm, get_or, All, All-set, All-get_or,
  All-replicate, arith,
}
use nw_lb_go.Base.Sort.{keep}
use nw_lb_go.Ratelimit.Limiter.{
  Bucket, Config, Entry, Limiter, shard_count, new, entry_of, put_entry, client_entry, shard_of,
  allow_client, allow, sweep_shard, sweep, janitor,
}
use nw_lb_go.Ratelimit.Clients.{bucket_of, put_entry-other, get_or-map}

module _ (bucket : Bucket) where
  -- A Go map: no key twice.
  abbrev pub IsMap : List (Str × Entry bucket) → Type 0
  IsMap [] = Unit {0}
  IsMap ((k, e) ∷ m) = (entry_of bucket k m ≡ none) × IsMap m

  -- What a sweep leaves of a bucket.
  abbrev pub fresh : ℕ → Option (Entry bucket) → Option (Entry bucket)
  fresh cutoff none = none
  fresh cutoff (some e) = if ltb e.last cutoff then none else some e

  entry_of-sweep_shard :
      (cutoff : ℕ) (k : Str) (m : List (Str × Entry bucket))
      → IsMap m
      → entry_of bucket k (sweep_shard bucket cutoff m) ≡ fresh cutoff (entry_of bucket k m)
  unfolding entry_of sweep_shard keep
  entry_of-sweep_shard cutoff k [] d = refl
  entry_of-sweep_shard cutoff k ((j, f) ∷ m) d =
      let rest = entry_of-sweep_shard cutoff k m d.1 in
      elim (Bool-cases (str_eq j k)) [
        | inl s ↦
            let gone : entry_of bucket k m ≡ none = rw (← str_eq→eq j k s) d.0 in
            elim (Bool-cases (ltb f.last cutoff)) [
              | inl old ↦ rw (old, s, old) (rest ∙ ap (fresh cutoff) gone)
              | inr young ↦ rw (young, s, young) refl
            ]
        | inr o ↦ elim (Bool-cases (ltb f.last cutoff)) [
          | inl old ↦ rw (old, o) rest
          | inr young ↦ rw (young, o) rest
        ]
      ]

  put_entry-IsMap :
      (k : Str) (e : Entry bucket) (m : List (Str × Entry bucket))
      → IsMap m
      → IsMap (put_entry bucket k e m)
  unfolding put_entry entry_of
  put_entry-IsMap k e [] d = (refl, tt)
  put_entry-IsMap k e ((j, f) ∷ m) d = elim (Bool-cases (str_eq j k)) [
    | inl s ↦ rw s (rw (← str_eq→eq j k s) d.0, d.1)
    | inr n ↦
        rw n (put_entry-other bucket k j e m (str_eq_symm j k n) ∙ d.0, put_entry-IsMap k e m d.1)
  ]

  sweep_shard-IsMap :
      (cutoff : ℕ) (m : List (Str × Entry bucket)) → IsMap m → IsMap (sweep_shard bucket cutoff m)
  unfolding sweep_shard keep
  sweep_shard-IsMap cutoff [] d = tt
  sweep_shard-IsMap cutoff ((j, f) ∷ m) d =
      let rest = sweep_shard-IsMap cutoff m d.1 in
      elim (Bool-cases (ltb f.last cutoff)) [
        | inl old ↦ rw old rest
        | inr young ↦ rw young (entry_of-sweep_shard cutoff j m d.1 ∙ ap (fresh cutoff) d.0, rest)
      ]

  map-All :
      (cutoff : ℕ) (ms : List (List (Str × Entry bucket)))
      → All IsMap ms
      → All IsMap (map (sweep_shard bucket cutoff) ms)
  map-All cutoff [] d = tt
  map-All cutoff (m ∷ ms) d = (sweep_shard-IsMap cutoff m d.0, map-All cutoff ms d.1)

  module _ (sum64 : Str → ℕ) where
    -- What may happen to a limiter: a call of `Allow`, or a tick of the janitor.
    pub data Event : Type 0 where
      request : Str → ℕ → Event
      tick : ℕ → Event

    abbrev pub step : Limiter bucket → Event → Limiter bucket
    step l (request key now) = (allow bucket sum64 l key now).0
    step l (tick now) = janitor bucket l now

    abbrev pub run : Limiter bucket → List Event → Limiter bucket
    run l [] = l
    run l (e ∷ es) = run (step l e) es

    abbrev pub AllMaps : Limiter bucket → Type 0
    AllMaps l = All IsMap l.shards

    allow_client-AllMaps :
        (l : Limiter bucket) (key : Str) (now : ℕ)
        → AllMaps l
        → AllMaps (allow_client bucket sum64 l key now).0
    unfolding allow_client
    allow_client-AllMaps l key now d =
        let i = shard_of bucket sum64 key in
        let m = get_or l.shards i [] in
        let e = client_entry bucket l key m now in
        let charged : Entry bucket = record e { lim = (bucket.allow_now e.lim now).0 } in
        All-set IsMap l.shards i (put_entry bucket key charged m) d
          (put_entry-IsMap key charged m (All-get_or IsMap l.shards i [] tt d))

    allow-AllMaps :
        (l : Limiter bucket) (key : Str) (now : ℕ)
        → AllMaps l
        → AllMaps (allow bucket sum64 l key now).0
    unfolding allow
    allow-AllMaps l key now d =
        let taken : Limiter bucket = record l { global = (bucket.allow_now l.global now).0 } in
        let own = allow_client-AllMaps taken key now d in
        elim (Bool-cases l.enabled) [
          | inr off ↦ rw (off, allow) d
          | inl on ↦ elim (Bool-cases (bucket.allow_now l.global now).1) [
            | inr no_token ↦ rw (on, allow, no_token) d
            | inl token ↦ elim (Bool-cases l.per_client) [
              | inr shared ↦ rw (on, allow, token, shared) d
              | inl each ↦ rw (on, allow, token, each) own
            ]
          ]
        ]

    pub step-AllMaps : (l : Limiter bucket) (e : Event) → AllMaps l → AllMaps (step l e)
    unfolding janitor sweep
    step-AllMaps l (request key now) d = allow-AllMaps l key now d
    step-AllMaps l (tick now) d = map-All (now - pos_part l.ttl) l.shards d

    pub run-AllMaps : (l : Limiter bucket) (es : List Event) → AllMaps l → AllMaps (run l es)
    run-AllMaps l [] d = d
    run-AllMaps l (e ∷ es) d = run-AllMaps (step l e) es (step-AllMaps l e d)

    pub new-AllMaps : (c : Config) → AllMaps (new bucket c)
    unfolding new
    new-AllMaps c = All-replicate IsMap shard_count [] tt

    -- The sweep at one shard, of a limiter whose shards are maps.
    bucket_of-sweep :
        (l : Limiter bucket) (cutoff : ℕ) (key : Str)
        → AllMaps l
        → bucket_of bucket sum64 (sweep bucket l cutoff) key
          ≡ fresh cutoff (bucket_of bucket sum64 l key)
    unfolding bucket_of sweep
    bucket_of-sweep l cutoff key maps =
        let i = shard_of bucket sum64 key in
        ap (entry_of bucket key) (
          get_or-map bucket sum64 (sweep_shard bucket cutoff) l.shards i
            (unfold sweep_shard keep in refl))
        ∙ entry_of-sweep_shard cutoff key (get_or l.shards i [])
            (All-get_or IsMap l.shards i [] tt maps)

    -- A client's bucket after the janitor has looked at it.
    abbrev pub unless_idle : ℕ → ℕ → Option (Entry bucket) → Option (Entry bucket)
    unless_idle ttl now none = none
    unless_idle ttl now (some e) = if ltb (e.last + ttl) now then none else some e

    fresh-unless_idle :
        (ttl now : ℕ) (o : Option (Entry bucket)) → fresh (now - ttl) o ≡ unless_idle ttl now o
    fresh-unless_idle ttl now none = refl
    fresh-unless_idle ttl now (some e) = ground arith

    pub janitor-unless_idle :
        (l : Limiter bucket) (now : ℕ) (key : Str)
        → AllMaps l
        → bucket_of bucket sum64 (janitor bucket l now) key
          ≡ unless_idle (pos_part l.ttl) now (bucket_of bucket sum64 l key)
    unfolding janitor
    janitor-unless_idle l now key maps =
        bucket_of-sweep l (now - pos_part l.ttl) key maps
        ∙ fresh-unless_idle (pos_part l.ttl) now (bucket_of bucket sum64 l key)

-- ===== src/Ratelimit/Seen.antt =====
-- internal/ratelimit/ratelimit.go: when the buckets of a run were last used, and which of them the
-- janitor evicts.
use nw_lb_go.Base.{
  ℕ, ◌+◌, ◌-◌, pos_part, ◌≡◌, refl, sym, ap, ◌∙◌, ltb, Bool, not, ◌&&◌, if◌then◌else◌, List, [],
  ◌∷◌, Option, none, some, if_elim, Bool-cases, inl, inr, Str, str_eq, str_eq→eq, get_or, length,
  length-set, length-map, replicate, All-get_or, All-replicate,
}
use nw_lb_go.Ratelimit.Limiter.{
  Bucket, Config, Entry, Limiter, shard_count, new, entry_of, shard_of, allow_client, allow,
  janitor, sweep, sweep_shard, put_entry, client_entry,
}
use nw_lb_go.Ratelimit.Clients.{bucket_of, touched, allow_client-own, allow_client-other}
use nw_lb_go.Ratelimit.Sweep.{
  Event, request, tick, step, run, AllMaps, step-AllMaps, new-AllMaps, run-AllMaps, unless_idle,
  janitor-unless_idle,
}

module _ (bucket : Bucket) where
  abbrev pub last_of : Option (Entry bucket) → Option ℕ
  last_of none = none
  last_of (some e) = some e.last

  -- What the time of last use is once the janitor has looked at it.
  abbrev pub forget_idle : ℕ → ℕ → Option ℕ → Option ℕ
  forget_idle ttl now none = none
  forget_idle ttl now (some t) = if ltb (t + ttl) now then none else some t

  last_of-unless_idle :
      (sum64 : Str → ℕ) (ttl now : ℕ) (o : Option (Entry bucket))
      → last_of (unless_idle bucket sum64 ttl now o) ≡ forget_idle ttl now (last_of o)
  last_of-unless_idle sum64 ttl now none = refl
  last_of-unless_idle sum64 ttl now (some e) = elim (Bool-cases (ltb (e.last + ttl) now)) [
    | inl old ↦ rw old refl
    | inr young ↦ rw young refl
  ]

  last_of-touched :
      (sum64 : Str → ℕ) (l : Limiter bucket) (o : Option (Entry bucket)) (now : ℕ)
      → (touched bucket sum64 l o now).last ≡ now
  last_of-touched sum64 l none now = refl
  last_of-touched sum64 l (some e) now = refl

  module _ (sum64 : Str → ℕ) (key : Str) where
    -- The global bucket and the time of a client's last request, told from the events alone: the time is
    -- that of the last request from the client that found a token in the global bucket, until a tick
    -- comes more than TTL after it.
    abbrev pub watch :
        Bool → Bool → ℕ → Event bucket sum64 → bucket.T × Option ℕ → bucket.T × Option ℕ
    watch enabled per_client ttl (request k now) (global, last) =
        let a = bucket.allow_now global now in
        if enabled
        then (a.0, if a.1 && (per_client && str_eq k key) then some now else last)
        else (global, last)
    watch enabled per_client ttl (tick now) (global, last) = (global, forget_idle ttl now last)

    abbrev pub watched :
        Bool → Bool → ℕ → List (Event bucket sum64) → bucket.T × Option ℕ → bucket.T × Option ℕ
    watched enabled per_client ttl [] w = w
    watched enabled per_client ttl (e ∷ es) w =
        watched enabled per_client ttl es (watch enabled per_client ttl e w)

    abbrev view : Limiter bucket → bucket.T × Option ℕ
    view l = (l.global, last_of (bucket_of bucket sum64 l key))

    allow_client-view :
        (l : Limiter bucket) (k : Str) (now : ℕ)
        → length l.shards ≡ shard_count
        → view (allow_client bucket sum64 l k now).0
          ≡ (l.global, if str_eq k key then some now else last_of (bucket_of bucket sum64 l key))
    allow_client-view l k now sized =
        let r = (allow_client bucket sum64 l k now).0 in
        let kept : r.global ≡ l.global = unfold allow_client in refl in
        elim (Bool-cases (str_eq k key)) [
          | inl same ↦
              let p : k ≡ key = str_eq→eq k key same in
              let own = allow_client-own bucket sum64 l k now sized in
              let seen : last_of (bucket_of bucket sum64 r key) ≡ some now =
                ap (λ x. last_of (bucket_of bucket sum64 r x)) (sym p)
                ∙ ap last_of own.0
                ∙ ap some (last_of-touched sum64 l (bucket_of bucket sum64 l k) now) in
              rw (kept, same, seen) refl
          | inr other ↦
              rw (kept, other, allow_client-other bucket sum64 l k key now sized other) refl
        ]

    -- What no step changes.
    abbrev fixed : Limiter bucket → Bool × Bool × ℕ × ℕ
    fixed l = (l.enabled, l.per_client, pos_part l.ttl, length l.shards)

    allow-view :
        (l : Limiter bucket) (k : Str) (now : ℕ)
        → length l.shards ≡ shard_count
        → view (allow bucket sum64 l k now).0
          ≡ watch l.enabled l.per_client (pos_part l.ttl) (request k now) (view l)
    unfolding allow bucket_of
    allow-view l k now sized =
        let taken : Limiter bucket = record l { global = (bucket.allow_now l.global now).0 } in
        let own = allow_client-view taken k now sized in
        elim (Bool-cases l.enabled) [
          | inr off ↦ rw (off, allow) refl
          | inl on ↦ elim (Bool-cases (bucket.allow_now l.global now).1) [
            | inr no_token ↦ rw (on, allow, no_token) refl
            | inl token ↦ elim (Bool-cases l.per_client) [
              | inr shared ↦ rw (on, allow, token, shared) refl
              | inl each ↦ rw (on, allow, token, each) own
            ]
          ]
        ]

    allow_client-fixed :
        (l : Limiter bucket) (k : Str) (now : ℕ)
        → fixed (allow_client bucket sum64 l k now).0 ≡ fixed l
    unfolding allow_client
    allow_client-fixed l k now =
        let i = shard_of bucket sum64 k in
        let m = get_or l.shards i [] in
        let e = client_entry bucket l k m now in
        let charged : Entry bucket = record e { lim = (bucket.allow_now e.lim now).0 } in
        ap (λ n. (l.enabled, l.per_client, pos_part l.ttl, n))
          (length-set l.shards i (put_entry bucket k charged m))

    allow-fixed :
        (l : Limiter bucket) (k : Str) (now : ℕ) → fixed (allow bucket sum64 l k now).0 ≡ fixed l
    unfolding allow
    allow-fixed l k now =
        let taken : Limiter bucket = record l { global = (bucket.allow_now l.global now).0 } in
        let P : Limiter bucket × Bool → Type 0 = λ r. fixed r.0 ≡ fixed l in
        if_elim P (not l.enabled) (λ a. refl)
          (λ a.
            if_elim P (not (bucket.allow_now l.global now).1) (λ b. refl)
              (λ b. if_elim P (not l.per_client) (λ c. refl) (λ c. allow_client-fixed taken k now)))

    step-fixed :
        (l : Limiter bucket) (e : Event bucket sum64) → fixed (step bucket sum64 l e) ≡ fixed l
    unfolding janitor sweep
    step-fixed l (request k now) = allow-fixed l k now
    step-fixed l (tick now) =
        ap (λ n. (l.enabled, l.per_client, pos_part l.ttl, n))
          (length-map l.shards (sweep_shard bucket (now - pos_part l.ttl)))

    step-view :
        (l : Limiter bucket) (e : Event bucket sum64)
        → length l.shards ≡ shard_count
        → AllMaps bucket sum64 l
        → view (step bucket sum64 l e) ≡ watch l.enabled l.per_client (pos_part l.ttl) e (view l)
    unfolding bucket_of
    step-view l (request k now) sized maps = allow-view l k now sized
    step-view l (tick now) sized maps =
        let kept : (janitor bucket l now).global ≡ l.global = unfold janitor sweep in refl in
        rw (kept, janitor-unless_idle bucket sum64 l now key maps)
          (ap (λ o. (l.global, o))
            (last_of-unless_idle sum64 (pos_part l.ttl) now (bucket_of bucket sum64 l key)))

    run-fixed :
        (l : Limiter bucket) (es : List (Event bucket sum64))
        → fixed (run bucket sum64 l es) ≡ fixed l
    run-fixed l [] = refl
    run-fixed l (e ∷ es) = run-fixed (step bucket sum64 l e) es ∙ step-fixed l e

    run-view :
        (l : Limiter bucket) (es : List (Event bucket sum64))
        → length l.shards ≡ shard_count
        → AllMaps bucket sum64 l
        → view (run bucket sum64 l es) ≡ watched l.enabled l.per_client (pos_part l.ttl) es (view l)
    run-view l [] sized maps = refl
    run-view l (e ∷ es) sized maps =
        let k = step bucket sum64 l e in
        let same : fixed k ≡ fixed l = step-fixed l e in
        let sized_too : length k.shards ≡ shard_count = ap (λ f. f.3) same ∙ sized in
        run-view k es sized_too (step-AllMaps bucket sum64 l e maps)
        ∙ ap (λ f. watched f.0 f.1 f.2 es (view k)) same
        ∙ ap (watched l.enabled l.per_client (pos_part l.ttl) es) (step-view l e sized maps)

    new-view : (c : Config) → view (new bucket c) ≡ ((new bucket c).global, none)
    unfolding new bucket_of entry_of
    new-view c =
        let empty : get_or (new bucket c).shards (shard_of bucket sum64 key) [] ≡ [] =
          All-get_or (λ m. m ≡ []) (replicate shard_count []) (shard_of bucket sum64 key) [] refl
            (All-replicate (λ m. m ≡ []) shard_count [] refl) in
        ap (λ m. ((new bucket c).global, last_of (entry_of bucket key m))) empty

    new-sized : (c : Config) → length (new bucket c).shards ≡ shard_count
    unfolding new
    new-sized c = refl

    -- On a new limiter, after any sequence of calls of `Allow` and ticks of the janitor that run one at
    -- a time: with limits per client, the time that a client's bucket carries is that of the client's
    -- last request that found a token in the global bucket, and a client without such a request, or
    -- idle for more than TTL at a tick since, has no bucket; without, none has one; and another tick
    -- evicts the bucket of each client whose time is more than TTL before it, and leaves that of every
    -- other client as it was, tokens included.
    pub janitor_evicts :
        (c : Config) (es : List (Event bucket sum64)) (now : ℕ)
        → let start = new bucket c in
          let l = run bucket sum64 start es in
          let told =
            watched start.enabled start.per_client (pos_part start.ttl) es (start.global, none) in
          (last_of (bucket_of bucket sum64 l key) ≡ told.1)
          × (bucket_of bucket sum64 (janitor bucket l now) key
              ≡ unless_idle bucket sum64 (pos_part start.ttl) now (bucket_of bucket sum64 l key))
    janitor_evicts c es now =
        let start = new bucket c in
        let l = run bucket sum64 start es in
        let maps = run-AllMaps bucket sum64 start es (new-AllMaps bucket sum64 c) in
        let seen =
          run-view start es (new-sized c) (new-AllMaps bucket sum64 c)
          ∙ ap (watched start.enabled start.per_client (pos_part start.ttl) es) (new-view c) in
        let same : pos_part l.ttl ≡ pos_part start.ttl = ap (λ f. f.2) (run-fixed start es) in
        (
          ap (λ w. w.1) seen,
          janitor-unless_idle bucket sum64 l now key maps
              ∙ ap (λ t. unless_idle bucket sum64 t now (bucket_of bucket sum64 l key)) same,
        )

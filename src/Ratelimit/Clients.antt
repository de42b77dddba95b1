-- ===== src/Ratelimit/Clients.antt =====
-- internal/ratelimit/ratelimit.go: the sharded map against a plain one from client keys to buckets.
use nw_lb_go.Base.{
  get_or-set_same, get_or-set_other, ℕ, zero, suc, ◌<◌, ◌≡◌, refl, ap, ◌∙◌, ltb, true, false, ◌&&◌,
  if◌then◌else◌, List, [], ◌∷◌, map, Option, none, some, Option-cases, Bool-cases, inl, inr, Str,
  str_eq, str_eq→eq, str_eq_refl, get_or, length, arith, ◌==◌,
}
use native.Mathlib.Nat.{mod-lt}
use nw_lb_go.Base.Sort.{keep}
use nw_lb_go.Ratelimit.Limiter.{
  Bucket, Entry, Limiter, shard_count, entry_of, put_entry, client_entry, shard_of, allow_client,
  allow, sweep_shard, sweep,
}

module _ (bucket : Bucket) where
  put_entry-found :
      (k : Str) (e : Entry bucket) (m : List (Str × Entry bucket))
      → entry_of bucket k (put_entry bucket k e m) ≡ some e
  unfolding entry_of put_entry
  put_entry-found k e [] = rw (str_eq_refl k)
  put_entry-found k e ((j, f) ∷ m) = elim (Bool-cases (str_eq j k)) [
    | inl s ↦ rw (s, str_eq_refl k)
    | inr n ↦ rw (n, n) (put_entry-found k e m)
  ]

  pub put_entry-other :
      (k j : Str) (e : Entry bucket) (m : List (Str × Entry bucket))
      → str_eq k j ≡ false
      → entry_of bucket j (put_entry bucket k e m) ≡ entry_of bucket j m
  unfolding entry_of put_entry
  put_entry-other k j e [] n = rw n
  put_entry-other k j e ((i, f) ∷ m) n = elim (Bool-cases (str_eq i k)) [
    | inl s ↦ cc_case s
    | inr o ↦ rw o (ground (arith, put_entry-other k j e m n))
  ]
    where
      cc_case :
          str_eq i k ≡ true
          → entry_of bucket j (put_entry bucket k e ((i, f) ∷ m)) ≡ entry_of bucket j ((i, f) ∷ m)
      cc_case s = let same : str_eq i j ≡ false = rw (str_eq→eq i k s) n in rw (s, n, same) refl

  module _ (sum64 : Str → ℕ) where
    -- The bucket of a client, wherever its shard keeps it.
    unfoldable pub bucket_of : Limiter bucket → Str → Option (Entry bucket)
    bucket_of l key = entry_of bucket key (get_or l.shards (shard_of bucket sum64 key) [])

    -- What `Allow` uses for a client: its bucket, or a new one, touched at `now`.
    abbrev pub touched : Limiter bucket → Option (Entry bucket) → ℕ → Entry bucket
    touched l none now = record {
      lim = bucket.new_limiter l.client_rate l.client_burst;
      last = now;
    }
    touched l (some e) now = record e { last = now }

    client_entry-touched :
        (l : Limiter bucket) (key : Str) (now : ℕ)
        → client_entry bucket l key (get_or l.shards (shard_of bucket sum64 key) []) now
          ≡ touched l (bucket_of l key) now
    unfolding client_entry bucket_of
    client_entry-touched l key now =
        let m = get_or l.shards (shard_of bucket sum64 key) [] in
        elim (Option-cases (entry_of bucket key m)) [
          | inl e ↦ rw (e, client_entry, bucket_of)
          | inr (x, e) ↦ rw (e, client_entry, bucket_of)
        ]

    shard_of-lt :
        (l : Limiter bucket) (key : Str)
        → length l.shards ≡ shard_count
        → shard_of bucket sum64 key < length l.shards
    unfolding shard_of
    shard_of-lt l key sized = let h = mod-lt (sum64 key) {m = 32} (omega arith) in omega arith

    pub allow_client-own :
        (l : Limiter bucket) (key : Str) (now : ℕ)
        → length l.shards ≡ shard_count
        → let e = touched l (bucket_of l key) now in
          let r = allow_client bucket sum64 l key now in
          (bucket_of r.0 key ≡ some (record e { lim = (bucket.allow_now e.lim now).0 }))
          × (r.1 ≡ (bucket.allow_now e.lim now).1)
    unfolding allow_client bucket_of shard_of
    allow_client-own l key now sized =
        let i = shard_of bucket sum64 key in
        let m = get_or l.shards i [] in
        let e = client_entry bucket l key m now in
        let small : i < length l.shards = shard_of-lt l key sized in
        rw (← client_entry-touched l key now) (
          ap (entry_of bucket key) (
                get_or-set_same l.shards i
                  (put_entry bucket key (record e { lim = (bucket.allow_now e.lim now).0 }) m) []
                  small)
              ∙ put_entry-found key (record e { lim = (bucket.allow_now e.lim now).0 }) m,
          refl,
        )

    pub allow_client-other :
        (l : Limiter bucket) (key other : Str) (now : ℕ)
        → length l.shards ≡ shard_count
        → str_eq key other ≡ false
        → bucket_of (allow_client bucket sum64 l key now).0 other ≡ bucket_of l other
    unfolding allow_client bucket_of
    allow_client-other l key other now sized n =
        let i = shard_of bucket sum64 key in
        let j = shard_of bucket sum64 other in
        let m = get_or l.shards i [] in
        let e = client_entry bucket l key m now in
        let f : Entry bucket = record e { lim = (bucket.allow_now e.lim now).0 } in
        elim (Bool-cases (i == j)) [
          | inl same ↦
              let s : i ≡ j = ground arith in
              let small : i < length l.shards = shard_of-lt l key sized in
              rw (← s) (
                ap (entry_of bucket other)
                  (get_or-set_same l.shards i (put_entry bucket key f m) [] small)
                ∙ put_entry-other key other f m n)
          | inr apart ↦
              ap (entry_of bucket other)
                (get_or-set_other l.shards i j (put_entry bucket key f m) [] (ground arith))
        ]

    -- `Allow` against the map of clients, on a limiter with all its shards: a request passes if
    -- limiting is off, or the global bucket has a token and, with limits per client, the client's own
    -- bucket has one too. Only in that last case is the client's bucket looked at, created if it is
    -- missing, touched and charged; so a request that the global bucket rejects allocates nothing. No
    -- other client's bucket changes.
    pub allow_lem :
        (l : Limiter bucket) (key other : Str) (now : ℕ)
        → length l.shards ≡ shard_count
        → str_eq key other ≡ false
        → let e = touched l (bucket_of l key) now in
          let g = bucket.allow_now l.global now in
          let c = bucket.allow_now e.lim now in
          let r = allow bucket sum64 l key now in
          (r.1 ≡ (if l.enabled then g.1 && (if l.per_client then c.1 else true) else true))
          × (bucket_of r.0 key ≡ (
              if l.enabled && g.1 && l.per_client
              then some (record e { lim = c.0 })
              else bucket_of l key))
          × (bucket_of r.0 other ≡ bucket_of l other)
    unfolding allow bucket_of
    allow_lem l key other now sized n =
        let g = bucket.allow_now l.global now in
        let taken : Limiter bucket = record l { global = g.0 } in
        let own = allow_client-own taken key now sized in
        let others = allow_client-other taken key other now sized n in
        elim (Bool-cases l.enabled) [
          | inr off ↦ rw (off, allow) (refl, refl, refl)
          | inl on ↦ elim (Bool-cases (g.1)) [
            | inr no_token ↦ rw (on, allow, no_token) (refl, refl, refl)
            | inl token ↦ elim (Bool-cases l.per_client) [
              | inr shared ↦ rw (on, allow, token, shared) (refl, refl, refl)
              | inl each ↦ rw (on, allow, token, each) (own.1, own.0, others)
            ]
          ]
        ]

    sweep_shard-keeps :
        (cutoff : ℕ) (k : Str) (e : Entry bucket) (m : List (Str × Entry bucket))
        → entry_of bucket k m ≡ some e
        → ltb e.last cutoff ≡ false
        → entry_of bucket k (sweep_shard bucket cutoff m) ≡ some e
    unfolding entry_of sweep_shard keep
    sweep_shard-keeps cutoff k e [] h live = cc
    sweep_shard-keeps cutoff k e ((j, f) ∷ m) h live = elim (Bool-cases (str_eq j k)) [
      | inl s ↦
          let here : some f ≡ some e = rw s at h in
          let alive : ltb f.last cutoff ≡ false = ground arith in rw (alive, s) here
      | inr o ↦
          let rest = sweep_shard-keeps cutoff k e m (rw o at h) live in
          elim (Bool-cases (ltb f.last cutoff)) [
            | inl old ↦ rw old rest
            | inr young ↦ rw (young, o) rest
          ]
    ]

    pub get_or-map :
        (f : List (Str × Entry bucket) → List (Str × Entry bucket))
        (xs : List (List (Str × Entry bucket))) (i : ℕ)
        → f [] ≡ []
        → get_or (map f xs) i [] ≡ f (get_or xs i [])
    get_or-map f [] i e = rw e
    get_or-map f (x ∷ xs) zero e = refl
    get_or-map f (x ∷ xs) (suc i) e = get_or-map f xs i e

    -- A sweep keeps the bucket of every client that was seen at the cutoff or later, with its tokens.
    pub sweep_keeps :
        (l : Limiter bucket) (cutoff : ℕ) (key : Str) (e : Entry bucket)
        → bucket_of l key ≡ some e
        → ltb e.last cutoff ≡ false
        → bucket_of (sweep bucket l cutoff) key ≡ some e
    unfolding bucket_of sweep
    sweep_keeps l cutoff key e h live =
        let i = shard_of bucket sum64 key in
        ap (entry_of bucket key)
          (get_or-map (sweep_shard bucket cutoff) l.shards i (unfold sweep_shard keep in refl))
        ∙ sweep_shard-keeps cutoff key e (get_or l.shards i []) h live

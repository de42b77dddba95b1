-- ===== src/Lib.antt =====
-- nw-lb-go is a gRPC load balancer: a proxy that forwards each call to one of a pool of backends. This
-- library models the part of it that decides where a call goes and whether it may go, and proves what
-- keeps those decisions right.
--
-- The parts, and how they interact:
--   internal/circuit    a breaker for each backend (and method): closed, open or half-open, by the share of
--                       failures in a rolling window; a registry of breakers by name.
--   internal/hashring   the consistent-hash ring from an affinity key to the backends in order.
--   internal/balancer   a key to a list of candidates: the ring's order, filtered by health and breakers,
--                       with a fallback ladder when that leaves none.
--   internal/pool       the backends: identity, health state, and the breaker that gates each.
--   internal/ratelimit  a token bucket for all and one for each client, in a sharded map.
--   internal/middleware the interceptors that a call passes before the proxy forwards it.
--   internal/config     what the others are configured with, its defaults, and what makes it valid.
--   internal/health     the replies of the health service, damped, become a backend's state, and a change
--                       of it wakes the balancer through the pool.
--   internal/proxy      the call itself: it takes the balancer's candidates in order, reserves each at its
--                       breaker, moves the messages both ways, and goes on to the next candidate only while
--                       the caller cannot notice.
--   cmd/loadgen         a load generator, whose report says whether a run met its objectives.
--
-- Files:
--   Base         shared helpers: Go's tests (Tests), slices (Lists), signed integers (Int), strings as bytes
--                (Text), slices.SortFunc (Sort) and sort.Search (Search).
--   Circuit      internal/circuit/circuit.go. Types: Settings, normalize, NewBreaker. Window: advanceLocked,
--                countLocked, clearLocked. Breaker: the methods of Breaker and Probe. Registry: Registry.
--                The others prove: WindowLaws and Slide (the window), Frame, Invariant and Trace (any
--                sequence of calls), Episodes and Account (half-open slots), Verdicts (record by state),
--                Callbacks, Foretell (Ready against Admit), Defaults, Registry/Bound.
--   Hashring     internal/hashring/hashring.go. Types: build and its steps. Ring: the methods of Ring. Members
--                and Build (what build publishes), Lookup (Get), Preference, Complete, GetN and Prefix
--                (GetN), Stability (Add and Remove against Get).
--   Balancer     internal/balancer/balancer.go. Types: snapshot and filters. Pick: Pick, collectRing,
--                collectRotation, Rebuild, Close. Collect and Safety (what is returned), Fallback (the
--                ladder), Order and Preferred (a keyed Pick while nothing changes), Rebuilt (Rebuild).
--   Config       internal/config/config.go. Types, Default, Backends (ParseBackends), RoundTrip (what it reads
--                back), Raw and Load (Load with the YAML tree), Env (ApplyEnv), Derived (applyDerivedDefaults,
--                burstFor), Validate; Names, Valid and Accepts (what Validate accepts). Text: what is used of
--                the package strings.
--   Pool         internal/pool/pool.go. Backend: State and the methods of Backend. Build: newPool. Gating
--                (Reserve against Available), Dialled and Mirror (newPool), Close (Get, Healthy, Close).
--   Middleware   internal/middleware. Chain: chain.go. Guard: circuitbreaker.go and ratelimit.go. Exits: how a
--                call ends at its breaker. Request: middleware.go and context.go. Labels: boundedLabels of
--                metrics.go, for callers that interleave; Stored and Cap (how many labels get through).
--   Ratelimit    internal/ratelimit/ratelimit.go. Limiter: the code. Clients: its map of buckets. Sweep: its
--                runs, with the ticks of the janitor. Seen: when the buckets of a run were last used.
--   Health       internal/health/health.go. Checker: New, CheckOnce, probe, record. Damping and Steady: any
--                history.
--   Proxy        internal/proxy/proxy.go. Types: New, exchange, toStatus. Retry: canRetry. Forward:
--                forwardMD and handle; Forwarded: what goes upstream. Exchange: install, record,
--                forwardHeader. System: run with relay, and pump, as the steps of two goroutines; each step
--                is what the code does from one answer of the outside to the next, and an event that does
--                not fit is ignored. View, Delivery and Order (what the stream in use was given), Side,
--                Output and Shown (what the client sees), Probes, Budget and Tally (attempts, outcomes and
--                streams), Bound (the end of a call).
--   Loadgen      cmd/loadgen/stats.go. Percentile: percentileIndex and percentile. Stats: the samples and the
--                loop of buildReport. Report: the rest of buildReport, failReason and sloPass. Outcomes,
--                Counted and Affinity (the loop against plain counts), Verdict (what a pass says). Open:
--                runOpen of cmd/loadgen/main.go, its scheduler and workers as steps; Balance and Once (how
--                often a request is issued).
--   Examples     the theorems at concrete inputs.
--
-- How the code is modelled:
--   - A method of a mutable struct is a function from the struct to the struct and the results. Each
--     method of Breaker holds its mutex throughout, so a concurrent run is a sequence of calls
--     (Circuit.Trace). Where a method is not atomic (Registry.Get) its steps are a relation
--     (Circuit.Registry.Bound).
--   - Instants are nanoseconds; Settings.Now is the argument `now` of each call, and no theorem assumes that
--     it is monotone. A difference of instants is an integer; the saturation of time.Duration at about 292
--     years is not modelled.
--   - FailureRatio is a decimal fraction, and the comparison of float64 quotients is multiplied out. The two
--     agree but for rounding, which needs windows near 2 ^ 52 requests or a ratio given to more digits than
--     a float64 keeps.
--   - Counters are natural numbers where the code's int cannot overflow; the episode number of a breaker
--     (uint64), the round-robin counter (uint64) and the product in vnodeCount (int) wrap at 2 ^ 64.
--   - OnStateChange, metrics and callbacks of the pool are reported as lists of calls.
--   - A Go map or a sync.Map is an association list. `build` ranges over a map and then sorts by id, so the
--     map's order does not show.
--   - xxhash.Sum64String is third-party code: the parameter `sum64`, any function.
--   - So are grpc.NewClient (`dial`), the token bucket of golang.org/x/time/rate (`bucket`) and the reply of
--     the health service; nothing is assumed of them. strconv.ParseFloat is the parameter `parse_float`,
--     Duration.String and time.ParseDuration are `duration_string` and `parse_duration`, of which Config.Load
--     assumes at most that the second reads back the first; the YAML decoder is any function on the tree.
--   - What a float64 too large for an int becomes, Go leaves to the platform: the field `huge_int`.
--   - The inbound metadata of a call is what FromIncomingContext returns, as a list in the order in which the
--     range over that map visits it.
--   - strings.TrimSpace and strings.ToLower are modelled on ASCII bytes; other characters they leave alone.
--   - The texts of error messages are left out; what a message names is kept in its constructor.
--   - The balancer sees the pool through `Gate`, whose state and answers are arbitrary, and which a question
--     may change. So what is proved of Pick holds while other goroutines trip breakers or mark backends.
--   - A gRPC stream answers with whatever the event says: messages, headers and errors are arbitrary, and so is
--     the order in which the handler and the pump of a call run (Proxy.System). Message bodies are numbers.
--     The mutex of `exchange` makes `install`, and each access of the pump, one step.
--   - The floating-point numbers of a report are integers: microseconds, parts per million and thousandths of a
--     request per second, rounded as the code rounds; a percentile has four decimals. Sums do not overflow.
--   - sort.Search runs on fuel: n rounds for a range of n, which halves in each. Every other loop is
--     structural. The loop of `run` has no fuel: Proxy.Bound bounds its rounds.
--
-- Not modelled: the callback list and the dial options of the pool; the tickers and goroutines of
-- the health checker and of the rate limiter, whose calls are taken one at a time; the interceptors that only recover, log or measure;
-- the reference counts of internal/proxy/codec.go; of cmd/loadgen the printed forms of a report, the
-- flags, warmup and runClosed; internal/metrics, cmd/lb and cmd/backend, which are wiring; gen/ is
-- generated code.
pub mod Base
pub mod Circuit
pub mod Hashring
pub mod Balancer
pub mod Pool
pub mod Health
pub mod Examples
pub mod Config
pub mod Ratelimit
pub mod Middleware
pub mod Proxy
pub mod Loadgen

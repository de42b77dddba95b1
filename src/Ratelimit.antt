-- ===== src/Ratelimit.antt =====
-- internal/ratelimit/ratelimit.go: a global token bucket and one for each client.
pub mod Limiter
pub mod Clients
pub mod Sweep
pub mod Seen

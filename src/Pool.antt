-- ===== src/Pool.antt =====
-- internal/pool/pool.go: the backends, their health, and the breaker that gates each.
pub mod Backend
pub mod Build
pub mod Gating
pub mod Dialled
pub mod Mirror
pub mod Close

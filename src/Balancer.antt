-- ===== src/Balancer.antt =====
-- internal/balancer/balancer.go: from an affinity key to the backends to try, in order.
pub mod Types
pub mod Pick
pub mod Collect
pub mod Safety
pub mod Fallback
pub mod Rebuilt
pub mod Order
pub mod Preferred

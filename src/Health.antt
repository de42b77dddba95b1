-- ===== src/Health.antt =====
-- internal/health/health.go: from the replies of the health service to a backend's state.
pub mod Checker
pub mod Damping
pub mod Steady

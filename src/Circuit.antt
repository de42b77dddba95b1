-- ===== src/Circuit.antt =====
-- internal/circuit/circuit.go: the rolling-window circuit breaker and the registry of breakers.
pub mod Types
pub mod Window
pub mod Breaker
pub mod WindowLaws
pub mod Slide
pub mod Frame
pub mod Defaults
pub mod Invariant
pub mod Trace
pub mod Episodes
pub mod Account
pub mod Verdicts
pub mod Callbacks
pub mod Foretell
pub mod Registry

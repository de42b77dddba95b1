-- ===== src/Config.antt =====
-- internal/config/config.go: the configuration, its defaults, and what makes it valid.
pub mod Text
pub mod Types
pub mod Default
pub mod Backends
pub mod Env
pub mod Derived
pub mod Validate
pub mod Names
pub mod Valid
pub mod Accepts
pub mod RoundTrip
pub mod Raw
pub mod Load

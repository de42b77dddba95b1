-- ===== src/Middleware.antt =====
-- internal/middleware: the interceptors in front of the proxy.
pub mod Chain
pub mod Guard
pub mod Exits
pub mod Request
pub mod Labels
pub mod Stored
pub mod Cap

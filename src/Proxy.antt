-- ===== src/Proxy.antt =====
-- internal/proxy/proxy.go: one proxied call, moved to another backend while that cannot be noticed.
pub mod Types
pub mod Retry
pub mod Exchange
pub mod System
pub mod View
pub mod Delivery
pub mod Order
pub mod Side
pub mod Output
pub mod Shown
pub mod Budget
pub mod Probes
pub mod Tally
pub mod Bound
pub mod Forward
pub mod Forwarded

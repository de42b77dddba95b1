-- ===== src/Examples.antt =====
-- The theorems applied to concrete inputs, and tests.
mod Breakers
mod Rings
mod Picks
mod Probes
mod Pools
mod Clients
mod Calls
mod Exchanges
mod Reports
mod Loads

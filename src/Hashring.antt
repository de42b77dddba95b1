-- ===== src/Hashring.antt =====
-- internal/hashring/hashring.go: the weighted consistent hash ring.
pub mod Types
pub mod Ring
pub mod Members
pub mod Build
pub mod Lookup
pub mod Stability
pub mod Preference
pub mod Complete
pub mod GetN
pub mod Prefix

-- ===== src/Balancer.antt =====
-- internal/balancer: the affinity store and what selects a backend.
pub mod Store
pub mod Flow
pub mod State
pub mod Select
pub mod Hash
pub mod Selectors
pub mod Group
pub mod Affinity
pub mod Parser
pub mod Monitor
pub mod Probes

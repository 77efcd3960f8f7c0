-- ===== src/Tests.antt =====
-- Runs of the definitions on concrete inputs, and the theorems applied to them.
pub mod Data
pub mod Affinity
pub mod Groups
pub mod Routes
pub mod Defenders
pub mod Doors
pub mod Metrics
pub mod Captures
pub mod Streams
pub mod Bodies
pub mod Pipelines
pub mod Journals
pub mod Monitors
pub mod Loads

-- ===== src/Distributed/State.antt =====
-- distributed/state/state_store.go: `StateStore`, over a Redis server and the JSON of its values.
pub mod Interface
pub mod Instances
pub mod Assignments
pub mod Windows
pub mod Heartbeat
pub mod Offline
pub mod Encoded
pub mod Freshness
pub mod Kept
pub mod Pages

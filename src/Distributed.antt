-- ===== src/Distributed.antt =====
-- distributed/: the state that instances share, and the sharding of groups.
pub mod Types
pub mod State
pub mod Sharding

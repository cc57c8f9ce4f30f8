-- ===== src/Example.antt =====
-- A store and a serialization that have the laws of the parameters, for the witnesses.
pub mod Parser
pub mod Serialized
pub mod Store
pub mod Jobs
pub mod Counts
pub mod Crons

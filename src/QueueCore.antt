-- ===== src/QueueCore.antt =====
-- taquba/src/queue_core/: the transitions of a job. A transition reads the record through the index
-- in its own transaction, so a run is one pass of its retry loop.
pub mod Control
pub mod Settle
pub mod Read
pub mod ControlCorrect
pub mod CancelCorrect
pub mod Claim
pub mod Signal
pub mod ClaimCorrect
mod Tests
pub mod ReviveCorrect
pub mod SettleCorrect

-- ===== src/Stream.antt =====
-- The live binlog stream (src/live): its data, the events, the checkpoints and the grouped
-- target transactions.
pub mod Types
pub mod Exec
pub mod Event
pub mod Target
pub mod Context
pub mod Checkpoints
pub mod Handler
pub mod Transaction
pub mod Contract
pub mod Loop
pub mod Reconnect
pub mod Progress
pub mod Value
pub mod Barrier
pub mod Token
pub mod Session
mod Tests

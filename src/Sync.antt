-- ===== src/Sync.antt =====
-- The synchronisation of tables (src/sync).
pub mod DependencyOrder
pub mod Exec
pub mod Model
pub mod Owners
pub mod Mutations
pub mod Window
pub mod Chunk
pub mod Spec
pub mod Contract
pub mod Stages
pub mod PhaseStore
pub mod Selection

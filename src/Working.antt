-- ===== src/Working.antt =====
-- memory/working/working.go: plans, tasks, checkpoints.
pub mod Types
pub mod Parents
pub mod Ready
pub mod Store
pub mod Skeleton
pub mod Validate

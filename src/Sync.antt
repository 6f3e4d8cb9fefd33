-- ===== src/Sync.antt =====
-- Folder sync, frontend/src/sync.
pub mod Env
pub mod Storage
pub mod Hash
pub mod Scanner
pub mod Progress
pub mod Actions
pub mod Passes
pub mod Reconcile
pub mod CopyName
pub mod Resolve
pub mod Context
pub mod Panel

-- ===== src/Coordination.antt =====
-- src/git_coordination.cpp: claims on tasks, shared by producers through the refs of a Git remote.
pub mod Claims
pub mod Sync
pub mod Leases
pub mod Run
mod Examples

-- ===== src/Catalog.antt =====
-- src/catalog.cpp: the queue of work that the tables work_items, work_dependencies, work_invocations
-- and runner_lease hold, the runner that takes work from it, and the tables facts and published_tasks,
-- which set items back or let them be picked.
pub mod Tables
pub mod Work
pub mod Runner
pub mod Facts
pub mod Eviction
pub mod Steps
pub mod Rows
pub mod WellFormed
pub mod Changes
pub mod Life
pub mod Next
pub mod Launch
pub mod Retries
pub mod Settled
mod Examples

-- ===== src/Lineage.antt =====
-- src/lineage.cpp: the comparison of two snapshots of a translation unit.
pub mod Match
pub mod Samples
pub mod Trace
pub mod Relate

-- ===== src/HistoryPlan.antt =====
-- src/history_plan.cpp: the plan of a first-parent history, as integration units.
pub mod Records
pub mod Paths
pub mod Units

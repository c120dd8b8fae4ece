-- ===== src/Catalog/Next.antt =====
-- src/catalog.cpp: the order in which claim_next_work takes the rows, and when it takes none.
pub mod Ready
pub mod Order
pub mod Taken
pub mod Refused

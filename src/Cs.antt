-- ===== src/Cs.antt =====
-- The content store (daemon/table/cs*.cpp).
pub mod Entry
pub mod Policy
pub mod Lru
pub mod PriorityFifo
pub mod Store
pub mod Order
pub mod Find
mod Tests

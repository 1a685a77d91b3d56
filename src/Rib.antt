-- ===== src/Rib.antt =====
-- The routing information base (rib).
pub mod Entry
mod Tests

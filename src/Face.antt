-- ===== src/Face.antt =====
-- The lower half of a face (daemon/face).
pub mod Transport
mod Tests

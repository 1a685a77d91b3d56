-- ===== src/Table.antt =====
-- The tables of the forwarder (daemon/table).
pub mod Records
pub mod Pit
pub mod DeadNonceList
pub mod Fib
mod Tests

-- ===== src/Lp.antt =====
-- NDNLPv2 fragmentation and reassembly (daemon/face).
pub mod Packet
pub mod Fragmenter
pub mod Reassembler
pub mod LinkService
mod Tests

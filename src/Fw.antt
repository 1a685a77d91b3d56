-- ===== src/Fw.antt =====
-- The forwarder: its pipelines and the forwarding decisions over a PIT entry (daemon/fw).
pub mod Algorithm
pub mod FaceTable
pub mod BestRoute
pub mod ProcessNack
pub mod Retx
pub mod World
pub mod Forwarder
pub mod IncomingData
mod Tests
mod PipelineTests

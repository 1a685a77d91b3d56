-- ===== src/Qos.antt =====
-- The QoS extension of the forwarder (daemon/fw): per-face priority queues, token buckets and the
-- strategy that drains them.
pub mod Float
pub mod Queue
pub mod TxQueue
pub mod Bucket
pub mod Send
pub mod Stats
pub mod Receive
mod Tests
mod ReceiveTests

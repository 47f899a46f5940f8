-- ===== src/Client.antt =====
-- client/: the load generator and its testers.
pub mod Bytes
pub mod Words
pub mod Message
pub mod UdpClient
pub mod Utf8
pub mod Delivery
pub mod ConsistencyTester
pub mod QueueSizeTester

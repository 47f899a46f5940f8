-- ===== src/Node.antt =====
-- The node in C++: src/.
pub mod Parse
pub mod Thresholds
pub mod Session
pub mod Network
pub mod Pool
pub mod Quorum

-- ===== src/Witness.antt =====
-- Tests, and the theorems at concrete inputs.
mod Codec
mod Nodes
mod Sessions
mod Calls
mod Listings
mod Client
mod Testers
mod Inventory
mod Clouds
mod Configuration
mod Records

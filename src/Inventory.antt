-- ===== src/Inventory.antt =====
-- ops/ansible/ec2.py: the dynamic inventory of the machines that the program is deployed to.
pub mod Names
pub mod Groups
pub mod Settings
pub mod Filing
pub mod Address
pub mod HostVars
pub mod Instances
pub mod Databases
pub mod Filters
pub mod Route53
pub mod Describe
pub mod Calls
pub mod Listings
pub mod Reading
pub mod Cache
pub mod Report
pub mod Caches
pub mod Indexed
pub mod Reachable

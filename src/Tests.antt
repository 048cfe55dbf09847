-- ===== src/Tests.antt =====
-- Sample data, and the theorems at it.
pub mod Data
pub mod Nodes
pub mod Bits
mod Packets
mod Machines
mod Stored
mod Fabric
mod Names
mod Programs
pub mod Messages
mod Settings
mod Uuids
mod Board
mod Shell
mod Arguments
mod Fetched

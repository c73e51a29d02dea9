-- ===== src/Pilot.antt =====
-- pilot-node/app/pilot_node: the restaurant's node. A store in SQLite, the lanes that an accepted
-- order goes through, and the operator's calls.
pub mod Order
pub mod Config
pub mod Store
pub mod Modules
pub mod Record
pub mod Print
pub mod Lanes
pub mod Process
pub mod Operations

-- ===== src/Registry.antt =====
-- The registry: nodes announce themselves, manifests of their keys protect them, registries mirror
-- one another, and customers discover the open nodes.
pub mod Node
pub mod Identity
pub mod Source
pub mod Curated
pub mod Store
pub mod Validation
pub mod Recording
pub mod Operations
pub mod Requests
pub mod Export
pub mod Log
pub mod Mirrors
pub mod Runs
pub mod NodeKeys
pub mod Roots
pub mod Refused
pub mod Ahead

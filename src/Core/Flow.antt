-- ===== src/Core/Flow.antt =====
-- p4p_core/flow_contracts.py: the contract of the order flow, and the check of each next event.
pub mod Base
pub mod Contract
pub mod Validate
pub mod Chain

-- ===== src/Pilot/Lanes.antt =====
-- The lanes of execution.py: stock, payment and print.
pub mod Common
pub mod Stock
pub mod Cash
pub mod Godpay
pub mod Reply
pub mod External
pub mod Payment
pub mod Print
pub mod Keeps
pub mod Outcomes
pub mod Decisions

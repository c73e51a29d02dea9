-- ===== src/Core.antt =====
-- p4p_core: what the registry, the demo node and the pilot node share.
pub mod Event
pub mod Manifest
pub mod Flow
pub mod RateLimit

-- ===== src/Remediator.antt =====
-- The remediator (agents/remediator/src).
pub mod Runbooks
pub mod State
pub mod Executor
pub mod Verification
pub mod Agent

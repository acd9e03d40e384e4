-- ===== src/Orchestrator.antt =====
-- The orchestrator (agents/orchestrator/src).
pub mod Fsm
pub mod Timeline
pub mod State
pub mod Router
pub mod Routes
pub mod Escalation
pub mod Agent
pub mod Handlers
pub mod Loop
pub mod Invariant
pub mod Outcomes

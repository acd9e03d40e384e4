-- ===== src/Orchestrator/Outcomes.antt =====
-- What single messages do to the orchestrator.
pub mod Approvals
pub mod Anomalies
pub mod Healthy

-- ===== src/Observer.antt =====
-- The observer (agents/observer/src).
pub mod Anomaly
pub mod Numbers
pub mod Deduplicator
pub mod Detector
pub mod State
pub mod Health
pub mod Synthetic
pub mod Logs
pub mod Predictor
pub mod Metrics
pub mod Suppression
pub mod Rounds
pub mod Accepted

-- ===== src/Diagnoser.antt =====
-- The diagnoser (agents/diagnoser/src).
pub mod Rubric
pub mod Debate
pub mod Hypothesis
pub mod Context
pub mod Correlation
pub mod State
pub mod Engine

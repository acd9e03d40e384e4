-- ===== src/Learner.antt =====
-- The learner (agents/learner/src).
pub mod Optimizer
pub mod Vectorizer
pub mod Recognizer
pub mod Agent
pub mod Feedback

-- ===== src/Safety.antt =====
-- The safety agent (agents/safety/src): the rate limiter, the policies, the blast radius, the
-- approval request and the review that combines them.
pub mod RateLimiter
pub mod Policy
pub mod BlastRadius
pub mod Agent
pub mod Handler

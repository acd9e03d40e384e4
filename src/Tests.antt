-- ===== src/Tests.antt =====
-- The theorems at concrete inputs, and runs of the definitions.
mod Fsm
mod Orchestrator
mod Safety
mod Observer
mod Dashboard
mod Remediator
mod Diagnoser
mod Learner
mod Messaging
mod BaseAgent
mod Numbers
mod Services

-- ===== src/Orchestrator/Invariant.antt =====
-- What holds of the orchestrator between two messages, whatever the bus and the database refuse.
pub mod Parts
pub mod Handling
pub mod Service
use dev_ops_agent_swarm.Base.{ℕ, ◌≤◌, ◌≡◌, String, Bool, true, List, Dict, All, arith}
use dev_ops_agent_swarm.Orchestrator.Fsm.{State, Fsm, max_retries_per_state}
use dev_ops_agent_swarm.Orchestrator.Fsm.History.{Chain}
use dev_ops_agent_swarm.Orchestrator.State.{Incident, Orchestrator}

-- A machine is filed under its incident, was retried at most twice in its state, and has a history
-- that is a path of the diagram to that state.
pub record IsTracked (e : String × Fsm) : Type 0 where
  pub filed : e.1.incident_id ≡ e.0
  pub bounded : e.1.retry_count ≤ max_retries_per_state
  pub start : State
  pub path : Chain start e.1.history e.1.state

pub record IsValid (s : Orchestrator) : Type 0 where
  pub tracked : All IsTracked s.active_fsms
  pub stored : All (λ (e : String × Incident). e.1.id ≡ e.0) s.incidents

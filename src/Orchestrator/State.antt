-- ===== src/Orchestrator/State.antt =====
-- The fields of `OrchestratorAgent` (agents/orchestrator/src/orchestrator_agent.py), with the
-- incident tables of shared/db/models.py that it alone writes while it handles a message.
use dev_ops_agent_swarm.Base.{
  ℕ, ◌+◌, String, Bool, true, false, List, [], ◌∷◌, Option, none, some, Dict, lookup, insert,
}
use dev_ops_agent_swarm.Base.Result.{Result, ok, raise, db_error}
use dev_ops_agent_swarm.Base.Value.{Value, Fields}
use dev_ops_agent_swarm.Messaging.Client.{World, M, Step, done, fail, modify}
use dev_ops_agent_swarm.Orchestrator.Fsm.{Fsm}
use dev_ops_agent_swarm.Orchestrator.Timeline.{Event, Postmortem}

-- `AgentInfo`
pub record AgentInfo : Type 0 where
  pub agent_id : String
  pub agent_type : Value
  pub hostname : Value
  pub status : Value
  pub last_seen_at : ℕ
  pub metrics : Fields

-- a row of `incidents`, the columns that the agents use
pub record Incident : Type 0 where
  pub id : String
  pub status : String
  pub severity : Value
  pub created_at : ℕ
  pub updated_at : ℕ
  pub state_entered_at : ℕ
  pub resolved_at : Option ℕ
  pub diagnosis : Option Fields
  pub diagnosis_confidence : Value
  pub root_cause_category : Value
  pub root_cause_service : Value
  pub remediation_actions : List Fields
  pub auto_resolved : Bool
  pub resolution_summary : Value
  pub timeline : List Event
  pub postmortem : Option Postmortem

-- a row of `anomalies`
pub record Anomaly : Type 0 where
  pub incident_id : String
  pub metric : Value
  pub service : Value
  pub severity : Value
  pub description : Value
  pub value : Value
  pub threshold : Value
  pub detected_at : ℕ
  pub raw_payload : Fields

-- `db_refusals` says of each coming database session whether it raises; a session that raises
-- rolls back, and once the list is empty every session commits.
pub record Orchestrator : Type 0 where
  pub agent_id : String
  pub messages_processed : ℕ
  pub registry : Dict AgentInfo
  pub active_fsms : Dict Fsm
  pub incidents : Dict Incident
  pub anomalies : List Anomaly
  pub db_refusals : List Bool

abbrev pub O : Type 0 → Type 0
O = M Orchestrator

-- the next answer of the database
abbrev pub refused : List Bool → Bool
refused [] = false
refused (b ∷ _) = b

abbrev pub later_answers : List Bool → List Bool
later_answers [] = []
later_answers (_ ∷ bs) = bs

-- how a session over the tables `s` ends: a refusal and a body that raises roll back
abbrev pub conclude :
    World Orchestrator → Orchestrator → Bool → Result Orchestrator → Step Orchestrator (Unit {0})
conclude w s true _ = fail db_error (record w { agent = s })
conclude w s false (ok t) = done tt (record w { agent = t })
conclude w s false (raise e) = fail e (record w { agent = s })

-- the fields when a session has begun
abbrev pub begun : Orchestrator → Orchestrator
begun s = record s { db_refusals = later_answers s.db_refusals }

-- `async with get_session() as session:` around a body that changes the tables, or raises
unfoldable pub session : (Orchestrator → Result Orchestrator) → O (Unit {0})
session f w = conclude w (begun w.agent) (refused w.agent.db_refusals) (f (begun w.agent))

-- the row written back
abbrev pub store : String → Orchestrator → Result Incident → Result Orchestrator
store id s (ok inc) = ok (record s { incidents = insert id inc s.incidents })
store id s (raise e) = raise e

-- `select(Incident).where(Incident.id == id)`, and the changes of the row if there is one
abbrev pub change_found :
    String → (Incident → Result Incident) → Orchestrator → Option Incident → Result Orchestrator
change_found id f s none = ok s
change_found id f s (some inc) = store id s (f inc)

unfoldable pub change_row :
    String → (Incident → Result Incident) → Orchestrator → Result Orchestrator
change_row id f s = change_found id f s (lookup id s.incidents)

unfoldable pub update_incident : String → (Incident → Result Incident) → O (Unit {0})
unfolding session change_row
update_incident id f = session (change_row id f)

unfoldable pub put_fsm : String → Fsm → O (Unit {0})
put_fsm id fsm = modify λ s. record s { active_fsms = insert id fsm s.active_fsms }

-- `_increment_processed`
unfoldable pub increment_processed : O (Unit {0})
increment_processed = modify λ s. record s { messages_processed = s.messages_processed + 1 }

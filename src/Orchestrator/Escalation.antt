-- ===== src/Orchestrator/Escalation.antt =====
-- `EscalationManager` (agents/orchestrator/src/escalation_manager.py). `active_fsms` is the
-- orchestrator's own dictionary, whose machines the retries change in place.
pub mod Pass
use dev_ops_agent_swarm.Base.{
  ℕ, String, Bool, List, [], ◌∷◌, ◌++◌, Option, none, some, Dict, any, if◌then◌else◌,
}
use dev_ops_agent_swarm.Base.Int.{pos}
use dev_ops_agent_swarm.Base.Value.{Value, Fields, end, field, int, str, f_string, is_text, as_key}
use dev_ops_agent_swarm.Messaging.Client.{
  M, World, Step, build, publish, get_agent, lift, return, ◌>>=◌, ◌>>◌,
}
use dev_ops_agent_swarm.Messaging.Message.{Draft}
use dev_ops_agent_swarm.Messaging.Subjects.{human_approvals, incidents_lifecycle}
use dev_ops_agent_swarm.Orchestrator.Fsm.{
  State, detecting, diagnosing, safety_review, executing, Fsm, name, state_eq, is_terminal,
  is_timed_out, should_retry, increment_retry,
}
use dev_ops_agent_swarm.Orchestrator.State.{O, Orchestrator, put_fsm}

abbrev pub count_value : ℕ → Value
count_value n = int (pos n)

abbrev pub retry_draft : Fsm → Draft
retry_draft f = record {
  source_agent = "orchestrator";
  target_agent = "*";
  message_type = "state_retry";
  payload =
      field "incident_id" (str f.incident_id)
        (field "state" (str (name f.state)) (field "retry_count" (count_value f.retry_count) end));
  correlation_id = some f.incident_id;
  context = none;
  priority = 1;
  ttl_seconds = 300;
}

abbrev pub escalation_draft : String → Fsm → Draft
escalation_draft incident_id f = record {
  source_agent = "orchestrator";
  target_agent = "human";
  message_type = "escalation";
  payload = field "incident_id" (str incident_id) (
      field "current_state" (str (name f.state)) (
        field "retry_count" (count_value f.retry_count) (
          field "reason"
            (f_string (
              str "State '"
              ∷ str (name f.state)
              ∷ str "' timed out after "
              ∷ count_value f.retry_count
              ∷ str " retries"
              ∷ []))
            end)));
  correlation_id = some incident_id;
  context = none;
  priority = 0;
  ttl_seconds = 300;
}

-- `_retry_current_state`; `key` is the machine's key in `active_fsms`
unfoldable pub retry_current_state : ℕ → String → Fsm → O (Unit {0})
retry_current_state now key f = do
  let g = increment_retry now f
  put_fsm key g
  msg ← build (retry_draft g)
  publish incidents_lifecycle msg

-- `_escalate_to_human`
unfoldable pub escalate_to_human : String → Fsm → O (Unit {0})
escalate_to_human incident_id f = do
  msg ← build (escalation_draft incident_id f)
  publish human_approvals msg

-- the loop body of `check_timeouts`: the identifiers that it appends to `escalated`
unfoldable pub check_one : ℕ → String → Fsm → O (List String)
check_one now incident_id f =
    if is_terminal f
    then return []
    else if is_timed_out now f
    then (if should_retry f
        then (retry_current_state now incident_id f >> return [])
        else (escalate_to_human incident_id f >> return (incident_id ∷ [])))
    else return []

unfoldable pub check_from : ℕ → Dict Fsm → O (List String)
check_from now [] = return []
check_from now ((incident_id, f) ∷ rest) = do
  here ← check_one now incident_id f
  others ← check_from now rest
  return (here ++ others)

unfoldable pub check_timeouts : ℕ → O (List String)
unfolding check_from
check_timeouts now = do s ← get_agent; check_from now s.active_fsms

-- `agent_state_map.get(agent_type, set())`
unfoldable pub affected_states : Value → List State
affected_states agent_type =
    if is_text "agents.diagnoser" agent_type
    then diagnosing ∷ []
    else if is_text "agents.remediator" agent_type
    then executing ∷ []
    else if is_text "agents.safety" agent_type
    then safety_review ∷ []
    else if is_text "agents.observer" agent_type
    then detecting ∷ []
    else []

unfoldable pub escalate_affected : List State → Dict Fsm → O (Unit {0})
escalate_affected states [] = return tt
escalate_affected states ((incident_id, f) ∷ rest) = do
  (if any (state_eq f.state) states then escalate_to_human incident_id f else return tt)
  escalate_affected states rest

unfoldable pub handle_dead_agent : Value → O (Unit {0})
unfolding escalate_affected
handle_dead_agent agent_type = do
  key ← lift (as_key agent_type)
  s ← get_agent
  escalate_affected (affected_states key) s.active_fsms

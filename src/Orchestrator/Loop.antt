-- ===== src/Orchestrator/Loop.antt =====
-- The recovery at start and one round of `run_loop`
-- (agents/orchestrator/src/orchestrator_agent.py), and the subscriptions that `setup` makes.
use dev_ops_agent_swarm.Base.{
  ℕ, String, Bool, List, [], ◌∷◌, Option, none, some, Dict, lookup, insert, ◌==◌, ◌||◌,
  if◌then◌else◌,
}
use dev_ops_agent_swarm.Base.Result.{Result, ok, raise}
use dev_ops_agent_swarm.Messaging.Client.{
  World, get_agent, return, modify, attempt, match_option, match_result, world, deliver, ◌>>=◌,
  ◌>>◌,
}
use dev_ops_agent_swarm.Messaging.Message.{Message}
use dev_ops_agent_swarm.Messaging.Subjects.{
  observer_anomalies, diagnoser_results, safety_decisions, remediator_executions, agent_heartbeat,
  human_approvals_responses,
}
use dev_ops_agent_swarm.Orchestrator.Agent.{handle_anomaly}
use dev_ops_agent_swarm.Orchestrator.Escalation.{check_timeouts, handle_dead_agent}
use dev_ops_agent_swarm.Orchestrator.Fsm.{Fsm, init}
use dev_ops_agent_swarm.Orchestrator.Handlers.{
  handle_diagnosis_result, handle_safety_decision, handle_execution_result, handle_heartbeat,
  handle_human_approval,
}
use dev_ops_agent_swarm.Orchestrator.Router.{prune_stale_agents}
use dev_ops_agent_swarm.Orchestrator.State.{Incident, Orchestrator, O, session}

-- `Incident.status.notin_(["resolved", "closed"])`
abbrev pub is_over : Incident → Bool
is_over inc = inc.status == "resolved" || inc.status == "closed"

-- `active_fsms[inc.id] = IncidentFSM(…)`; `none` is the `ValueError` of a status that is no state
abbrev pub file_under : String → Dict Fsm → Result Fsm → Option (Dict Fsm)
file_under id fsms (ok fsm) = some (insert id fsm fsms)
file_under id fsms (raise _) = none

-- one row of the loop
unfoldable pub load_one : ℕ → String → Incident → Dict Fsm → Option (Dict Fsm)
load_one now id inc fsms =
    if is_over inc
    then some fsms
    else file_under id fsms (init id inc.status (some inc.state_entered_at) now)

unfoldable pub load_fsms : ℕ → Dict Incident → Dict Fsm → Dict Fsm
load_fsms now [] fsms = fsms
load_fsms now ((id, inc) ∷ rest) fsms = elim (load_one now id inc fsms) [
  | none ↦ fsms
  | some more ↦ load_fsms now rest more
]

-- `_recover_inflight` catches every exception
unfoldable pub recover_inflight : ℕ → O (Unit {0})
recover_inflight now = do
  answer ← attempt (session (λ s. ok s))
  match_result answer (λ _. return tt)
      (λ _. modify (λ s. record s { active_fsms = load_fsms now s.incidents s.active_fsms }))

-- the loop over the dead agents
unfoldable pub report_dead : List String → O (Unit {0})
report_dead [] = return tt
report_dead (agent_id ∷ rest) = do
  s ← get_agent
  match_option (lookup agent_id s.registry) (return tt) (λ info. handle_dead_agent info.agent_type)
  report_dead rest

unfoldable pub prune : ℕ → O (List String)
prune now = do
  s ← get_agent
  let (registry, dead) = prune_stale_agents now s.registry
  modify λ t. record t { registry = registry }
  return dead

-- the body of the `while`, which catches every exception
unfoldable pub round : ℕ → O (Unit {0})
round now = do
  _ ← attempt (do escalated ← check_timeouts now; dead ← prune now; report_dead dead)
  return tt

-- the handler that `setup` subscribes to a subject
unfoldable pub handler : String → Option (ℕ → Message → O (Unit {0}))
handler subject =
    if subject == observer_anomalies
    then some handle_anomaly
    else if subject == diagnoser_results
    then some handle_diagnosis_result
    else if subject == safety_decisions
    then some handle_safety_decision
    else if subject == remediator_executions
    then some handle_execution_result
    else if subject == agent_heartbeat
    then some handle_heartbeat
    else if subject == human_approvals_responses
    then some handle_human_approval
    else none

-- What reaches a running orchestrator: a message on a subject, or the next round of the loop.
pub data Input : Type 0 where
  message : String → Message → Input
  tick : Input

-- `_raw_handler` around the handler of the subject
abbrev pub receive :
    ℕ → Message → Option (ℕ → Message → O (Unit {0})) → World Orchestrator → World Orchestrator
receive now msg none w = w
receive now msg (some h) w = (deliver now (h now) msg w).1

unfoldable pub serve_one : ℕ → Input → World Orchestrator → World Orchestrator
serve_one now (message subject msg) w = receive now msg (handler subject) w
serve_one now tick w = world (round now w)

-- inputs are served one after the other, each at its time
unfoldable pub serve : List (ℕ × Input) → World Orchestrator → World Orchestrator
serve [] w = w
serve ((now, i) ∷ rest) w = serve rest (serve_one now i w)

-- ===== src/Tests/Fsm.antt =====
-- Witnesses and runs for the incident state machine, its timeline and the agent registry.
use dev_ops_agent_swarm.Base.{
  All, In, ℕ, ◌*◌, ◌≤◌, ◌≡◌, ◌↔◌, refl, String, true, List, [], ◌∷◌, some, none, any, length, Dict,
  filter,
}
use dev_ops_agent_swarm.Base.Int.{sub_ℕ}
use dev_ops_agent_swarm.Base.Result.{ok, raise, value_error}
use dev_ops_agent_swarm.Base.Value.{str, end, null}
use dev_ops_agent_swarm.Messaging.Message.{second}
use dev_ops_agent_swarm.Orchestrator.Fsm.{
  detecting, diagnosing, proposing_remediation, safety_review, executing, verifying, resolved, Fsm,
  transition, move, increment_retry, init, of_name,
}
use dev_ops_agent_swarm.Orchestrator.Fsm.Graph.{◌⟶◌, transition_iff}
use dev_ops_agent_swarm.Orchestrator.Fsm.History.{
  Call, goes, retries, run, is_approval, rank, run-gated, after,
}
use dev_ops_agent_swarm.Orchestrator.Router.{prune_stale_agents, get_available_agents}
use dev_ops_agent_swarm.Orchestrator.Router.Health.{dies, keys_of, prune_stale_agents_lem}
use dev_ops_agent_swarm.Orchestrator.State.{AgentInfo}
use dev_ops_agent_swarm.Orchestrator.Timeline.{Event, Case, generate_postmortem}
use dev_ops_agent_swarm.Orchestrator.Timeline.Durations.{total, generate_postmortem-total}

abbrev new_fsm : Fsm
new_fsm = record {
  incident_id = "inc-1";
  state = detecting;
  state_entered_at = 0;
  retry_count = 0;
  history = [];
}

abbrev in_review : Fsm
in_review = record new_fsm { state = safety_review; retry_count = 1 }

-- a life with one rejected attempt, one retry and one refused transition
abbrev life : List (ℕ × Call)
life =
    (1, goes diagnosing)
    ∷ (2, goes executing)
    ∷ (3, retries)
    ∷ (4, goes proposing_remediation)
    ∷ (5, goes safety_review)
    ∷ (6, goes executing)
    ∷ (7, goes verifying)
    ∷ (8, goes resolved)
    ∷ []

init_run : init "inc-1" "detecting" none 0 ≡ ok new_fsm
unfolding init of_name
init_run = refl

init_unknown : init "inc-1" "paused" none 0 ≡ raise value_error
unfolding init of_name
init_unknown = refl

life_resolves : (run life new_fsm).state ≡ resolved
unfolding run after transition increment_retry
life_resolves = refl

transition_iff_example :
    ((transition 9 executing in_review ≡ ok (move 9 executing in_review))
      ↔ (safety_review ⟶ executing))
    × ((transition 9 executing in_review ≡ raise value_error) ↔ (¬ (safety_review ⟶ executing)))
transition_iff_example = transition_iff 9 executing in_review

run-gated_example :
    (any is_approval (run life new_fsm).history ≡ true)
    × (rank (run life new_fsm).state ≤ length (run life new_fsm).history)
unfolding run after transition increment_retry
run-gated_example = run-gated life new_fsm refl refl refl

abbrev event : String → ℕ → Event
event kind at = record {
  event_type = kind;
  agent = "a";
  summary = null;
  details = end;
  timestamp = some at;
}

abbrev case : Case
case = record {
  incident_id = "inc-1";
  severity = str "high";
  status = "resolved";
  created_at = some 10;
  resolved_at = some 75;
  timeline =
      event "anomaly_detected" 10
      ∷ event "safety_approved" 30
      ∷ event "anomaly_detected" 50
      ∷ event "resolved" 75
      ∷ [];
  root_cause_category = null;
  root_cause_service = null;
  resolution_summary = null;
}

generate_postmortem-total_example :
    (total (generate_postmortem case).state_durations ≡ sub_ℕ 75 10)
    × All (λ d. In d case.timeline) (generate_postmortem case).key_decisions
    × (length (generate_postmortem case).key_decisions ≤ (generate_postmortem case).total_events)
generate_postmortem-total_example =
    generate_postmortem-total case 10 (30 ∷ 50 ∷ 75 ∷ []) (refl, (refl, (refl, (refl, tt))))

abbrev agent : String → ℕ → AgentInfo
agent id seen = record {
  agent_id = id;
  agent_type = str "agents.safety";
  hostname = str "h";
  status = str "healthy";
  last_seen_at = seen;
  metrics = end;
}

abbrev registry : Dict AgentInfo
registry = ("s1", agent "s1" 0) ∷ ("s2", agent "s2" (50 * second)) ∷ []

prune_run : (prune_stale_agents (100 * second) registry).1 ≡ "s1" ∷ []
unfolding prune_stale_agents
prune_run = refl

prune_stale_agents_lem_example :
    let (kept, dead) = prune_stale_agents (100 * second) registry in
    (dead ≡ keys_of (filter (dies (100 * second)) registry))
    × (prune_stale_agents (100 * second) kept ≡ (kept, []))
    × ((t : String)
        → get_available_agents (100 * second) t kept
          ≡ get_available_agents (100 * second) t registry)
prune_stale_agents_lem_example = prune_stale_agents_lem (100 * second) registry

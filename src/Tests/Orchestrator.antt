-- ===== src/Tests/Orchestrator.antt =====
-- Witnesses for the orchestrator's handlers.
use dev_ops_agent_swarm.Base.{
  ℕ, ◌≡◌, refl, String, Bool, true, false, List, [], ◌∷◌, some, none, lookup,
}
use dev_ops_agent_swarm.Base.Value.{Fields, str, null, end, field, get}
use dev_ops_agent_swarm.Messaging.Client.{World, Bus, deliver, done, naked, acked}
use dev_ops_agent_swarm.Messaging.Message.{Message, Fresh, is_expired}
use dev_ops_agent_swarm.Messaging.Subjects.{observer_anomalies, safety_decisions}
use dev_ops_agent_swarm.Orchestrator.Agent.{handle_anomaly}
use dev_ops_agent_swarm.Orchestrator.Escalation.{check_timeouts}
use dev_ops_agent_swarm.Orchestrator.Escalation.Pass.{
  Returns, all_reported, all_notices, check_timeouts_lem,
}
use dev_ops_agent_swarm.Orchestrator.Fsm.{
  State, proposing_remediation, safety_review, executing, diagnosing, closed, Fsm, move,
  increment_retry, should_retry,
}
use dev_ops_agent_swarm.Orchestrator.Fsm.Graph.{◌⟶◌, reject}
use dev_ops_agent_swarm.Orchestrator.Handlers.{
  handle_safety_decision, handle_execution_result, resolved_row,
}
use dev_ops_agent_swarm.Orchestrator.Invariant.{IsValid}
use dev_ops_agent_swarm.Orchestrator.Invariant.Service.{serve-IsValid}
use dev_ops_agent_swarm.Orchestrator.Loop.{Input, message, tick, serve}
use dev_ops_agent_swarm.Orchestrator.Outcomes.Anomalies.{
  handle_anomaly-stranded, opened_fsm, reconnected,
}
use dev_ops_agent_swarm.Orchestrator.Outcomes.Approvals.{
  IsResolved, counted, safety_approval-dropped, resolved_fields, rejected_fields,
  handle_execution_result-resolves, safety_rejection-resets,
}
use dev_ops_agent_swarm.Orchestrator.Outcomes.Healthy.{IsHealthy, announced}
use dev_ops_agent_swarm.Orchestrator.State.{Orchestrator, Incident}

abbrev uuid : ℕ → Fresh
uuid n = record { message_uuid = "m"; correlation_uuid = "c"; trace_uuid = "t"; created = 0 }

abbrev bus : Bool → Bus
bus up = record { connected = up; refusals = []; uuids = uuid; built = 0; outbox = [] }

abbrev idle : Orchestrator
idle = record {
  agent_id = "orc";
  messages_processed = 0;
  registry = [];
  active_fsms = [];
  incidents = [];
  anomalies = [];
  db_refusals = [];
}

abbrev fsm : State → Fsm
fsm s = record { incident_id = "i"; state = s; state_entered_at = 0; retry_count = 0; history = [] }

abbrev row : Incident
row = record {
  id = "i";
  status = "executing";
  severity = str "high";
  created_at = 0;
  updated_at = 0;
  state_entered_at = 0;
  resolved_at = none;
  diagnosis = none;
  diagnosis_confidence = null;
  root_cause_category = null;
  root_cause_service = null;
  remediation_actions = [];
  auto_resolved = false;
  resolution_summary = null;
  timeline = [];
  postmortem = none;
}

abbrev tracking : State → World Orchestrator
tracking s = record {
  agent = record idle { active_fsms = ("i", fsm s) ∷ []; incidents = ("i", row) ∷ [] };
  bus = bus true;
}

abbrev msg : Fields → Message
msg payload = record {
  message_id = "m1";
  correlation_id = "i";
  trace_id = "t";
  source_agent = "agents.safety";
  target_agent = "*";
  message_type = "x";
  priority = 1;
  ttl_seconds = 300;
  timestamp = 0;
  retry_count = 0;
  payload = payload;
  context = end;
}

abbrev status : String → Message
status s = msg (field "status" (str s) end)

healthy : (s : State) → IsHealthy (tracking s)
healthy s = record { connected = refl; bus_up = refl; db_up = refl }

-- proposing_remediation has one edge, to safety_review
not_executing : ¬ (proposing_remediation ⟶ executing)
not_executing e = go e refl refl
  where
    go : {s t : State} → s ⟶ t → s ≡ proposing_remediation → t ≡ executing → ⊥
    go dev_ops_agent_swarm.Orchestrator.Fsm.Graph.◌⟶◌.approve p q = cc
    go dev_ops_agent_swarm.Orchestrator.Fsm.Graph.◌⟶◌.repeat p q = cc
    go _ p q = cc

safety_approval-dropped_example :
    handle_safety_decision 9 (status "approved") (tracking proposing_remediation)
    ≡ done tt (counted (tracking proposing_remediation))
unfolding lookup get
safety_approval-dropped_example =
    safety_approval-dropped 9 (status "approved") (tracking proposing_remediation)
      (fsm proposing_remediation) refl not_executing refl

handle_execution_result-resolves_example :
    handle_execution_result 9 (status "success") (tracking executing)
      ≡ done tt (record {
        agent = resolved_fields 9 (status "success") (tracking executing).agent (fsm executing) row;
        bus = announced (tracking executing) "incident.resolved" "i" end;
      })
    × IsResolved row (resolved_row 9 (tracking executing).agent.agent_id (status "success") row)
unfolding lookup get
handle_execution_result-resolves_example =
    handle_execution_result-resolves 9 (status "success") (tracking executing) (fsm executing) row
      (healthy executing) refl refl refl refl

safety_rejection-resets_example :
    (handle_safety_decision 9 (status "rejected") (tracking safety_review)
      ≡ done tt (record (tracking safety_review) {
        agent =
            rejected_fields 9
              (status "rejected")
              (tracking safety_review).agent
              (fsm safety_review)
              row;
      }))
    × ((move 9 proposing_remediation (increment_retry 9 (fsm safety_review))).retry_count ≡ 0)
unfolding lookup get should_retry
safety_rejection-resets_example =
    safety_rejection-resets 9 (status "rejected") (tracking safety_review) (fsm safety_review) row
      (healthy safety_review) refl refl reject refl refl

abbrev offline : World Orchestrator
offline = record { agent = idle; bus = bus false }

handle_anomaly-stranded_example :
    let (first, w1) = deliver 9 (handle_anomaly 9) (msg end) offline in
    let (second', w2) = deliver 20 (handle_anomaly 20) (msg end) (reconnected w1) in
    (first ≡ naked)
    × (second' ≡ acked)
    × (w2.bus.outbox ≡ [])
    × (lookup "i" w2.agent.active_fsms ≡ some (opened_fsm 9 (msg end)))
unfolding lookup is_expired
handle_anomaly-stranded_example =
    handle_anomaly-stranded 9 20 (msg end) offline refl refl refl refl refl refl

abbrev inputs : List (ℕ × Input)
inputs =
    (1, message observer_anomalies (msg end))
    ∷ (200, tick)
    ∷ (300, message safety_decisions (status "rejected"))
    ∷ []

idle-IsValid : IsValid idle
idle-IsValid = record { tracked = tt; stored = tt }

serve-IsValid_example : IsValid (serve inputs offline).agent
serve-IsValid_example = serve-IsValid inputs offline idle-IsValid

-- two incidents, both late, of which one was retried twice
abbrev late : World Orchestrator
late = record {
  agent = record idle {
    active_fsms =
        ("i", fsm executing)
        ∷ ("j", record (fsm diagnosing) { incident_id = "j"; retry_count = 2 })
        ∷ ("k", fsm closed)
        ∷ [];
  };
  bus = bus true;
}

abbrev much_later : ℕ
much_later = 3600000000

check_timeouts_lem_example :
    Returns
      (check_timeouts much_later)
      late
      (all_reported much_later late.agent.active_fsms)
      (all_notices much_later late.agent.active_fsms)
check_timeouts_lem_example = check_timeouts_lem much_later late refl refl

-- ===== src/Orchestrator/Agent.antt =====
-- `OrchestratorAgent` (agents/orchestrator/src/orchestrator_agent.py): the handlers of its
-- subscriptions, the recovery at start, and one round of its loop. A handler reads the clock once,
-- as `now`.
use dev_ops_agent_swarm.Base.{ℕ, String, Bool, [], ◌∷◌, ◌++◌, Option, none, some, lookup, insert}
use dev_ops_agent_swarm.Base.Result.{Result, ok, raise, db_error}
use dev_ops_agent_swarm.Base.Value.{Value, Fields, end, field, null, str, dict, get_or, f_string}
use dev_ops_agent_swarm.Messaging.Client.{
  build, publish, get_agent, lift, return, match_option, match_result, ◌>>=◌, ◌>>◌,
}
use dev_ops_agent_swarm.Messaging.Message.{Message}
use dev_ops_agent_swarm.Messaging.Subjects.{incidents_lifecycle}
use dev_ops_agent_swarm.Orchestrator.Fsm.{State, diagnosing, Fsm, name, init, transition}
use dev_ops_agent_swarm.Orchestrator.Routes.{route_to_diagnoser}
use dev_ops_agent_swarm.Orchestrator.State.{
  Incident, Anomaly, Orchestrator, O, session, update_incident, put_fsm, increment_processed,
}
use dev_ops_agent_swarm.Orchestrator.Timeline.{add_event, saved_timeline}

-- `_publish_lifecycle`; `extra` are the keyword arguments
unfoldable pub publish_lifecycle : String → String → Fields → O (Unit {0})
publish_lifecycle event_type incident_id extra = do
  s ← get_agent
  msg ← build (record {
    source_agent = s.agent_id;
    target_agent = "*";
    message_type = event_type;
    payload = field "incident_id" (str incident_id) extra;
    correlation_id = some incident_id;
    context = none;
    priority = 1;
    ttl_seconds = 300;
  })
  publish incidents_lifecycle msg

abbrev pub stamped : ℕ → State → Incident → Result Incident
stamped now status inc =
    ok (record inc { status = name status; state_entered_at = now; updated_at = now })

-- `_update_incident_status`: the keyword arguments are dropped
unfoldable pub update_incident_status : ℕ → String → State → O (Unit {0})
update_incident_status now incident_id status = update_incident incident_id (stamped now status)

-- `_update_incident_timeline`
unfoldable pub update_incident_timeline : ℕ → String → String → String → Value → O (Unit {0})
update_incident_timeline now incident_id event_type agent summary =
    update_incident incident_id λ inc. ok (record inc {
      timeline =
          saved_timeline inc.timeline (add_event now inc.timeline event_type agent summary end);
      updated_at = now;
    })

-- the row that `_handle_anomaly` adds
abbrev pub new_incident : ℕ → Message → Incident
new_incident now msg = record {
  id = msg.correlation_id;
  status = "detecting";
  severity = get_or "severity" (str "medium") msg.payload;
  created_at = now;
  updated_at = now;
  state_entered_at = now;
  resolved_at = none;
  diagnosis = none;
  diagnosis_confidence = null;
  root_cause_category = null;
  root_cause_service = null;
  remediation_actions = [];
  auto_resolved = Bool.false;
  resolution_summary = null;
  timeline =
      add_event now [] "anomaly_detected" msg.source_agent
        (f_string (
          str "Anomaly detected: "
          ∷ get_or "metric" (str "unknown") msg.payload
          ∷ str " on "
          ∷ get_or "service" (str "unknown") msg.payload
          ∷ []))
        (field "anomaly" (dict msg.payload) end);
  postmortem = none;
}

abbrev pub new_anomaly : ℕ → Message → Anomaly
new_anomaly now msg = record {
  incident_id = msg.correlation_id;
  metric = get_or "metric" (str "unknown") msg.payload;
  service = get_or "service" (str "unknown") msg.payload;
  severity = get_or "severity" (str "medium") msg.payload;
  description = get_or "description" null msg.payload;
  value = get_or "value" null msg.payload;
  threshold = get_or "threshold" null msg.payload;
  detected_at = now;
  raw_payload = msg.payload;
}

-- the body of the session of `_handle_anomaly`, by what is stored under the primary key: a second
-- row with a present key is refused
abbrev pub add_rows : ℕ → Message → Orchestrator → Option Incident → Result Orchestrator
add_rows now msg s (some _) = raise db_error
add_rows now msg s none = ok (record s {
  incidents = insert msg.correlation_id (new_incident now msg) s.incidents;
  anomalies = s.anomalies ++ new_anomaly now msg ∷ [];
})

unfoldable pub insert_incident : ℕ → Message → O (Unit {0})
insert_incident now msg = session λ s. add_rows now msg s (lookup msg.correlation_id s.incidents)

unfoldable pub open_incident : ℕ → Message → O (Unit {0})
open_incident now msg = do
  insert_incident now msg
  fresh ← lift (init msg.correlation_id "detecting" none now)
  fsm ← lift (transition now diagnosing fresh)
  put_fsm msg.correlation_id fsm
  update_incident_status now msg.correlation_id diagnosing
  s ← get_agent
  route_to_diagnoser s.agent_id msg.correlation_id msg.payload (some msg.context)
  publish_lifecycle "incident.created" msg.correlation_id
      (field "severity" (get_or "severity" (str "medium") msg.payload) end)

-- what each handler does with the machine of its message, where there is one
abbrev pub with_fsm : Message → (Fsm → O (Unit {0})) → O (Unit {0})
with_fsm msg body = do
  increment_processed
  s ← get_agent
  match_option (lookup msg.correlation_id s.active_fsms) (return tt) body

unfoldable pub handle_anomaly : ℕ → Message → O (Unit {0})
handle_anomaly now msg = do
  increment_processed
  s ← get_agent
  match_option (lookup msg.correlation_id s.active_fsms) (open_incident now msg) (λ _. return tt)

-- `fsm.transition(target)` in a `try`: the machine is changed in place, and `next` runs, or the
-- `ValueError` is caught and `caught` runs
abbrev pub try_transition :
    ℕ → State → Message → Fsm → O (Unit {0}) → (Fsm → O (Unit {0})) → O (Unit {0})
try_transition now target msg fsm caught next =
    match_result (transition now target fsm) (λ _. caught)
      (λ moved. put_fsm msg.correlation_id moved >> next moved)

-- ===== src/Orchestrator/Handlers.antt =====
-- The handlers of `OrchestratorAgent` (agents/orchestrator/src/orchestrator_agent.py) for an
-- incident that is under way.
use dev_ops_agent_swarm.Base.{ℕ, String, true, [], ◌∷◌, some, if◌then◌else◌}
use dev_ops_agent_swarm.Base.Int.{pos}
use dev_ops_agent_swarm.Base.Result.{Result, ok, raise}
use dev_ops_agent_swarm.Base.Value.{
  Value, Fields, end, field, int, null, str, dict, get_or, as_dict, f_string, is_text,
}
use dev_ops_agent_swarm.Messaging.Client.{get_agent, lift, return, modify, ◌>>=◌, ◌>>◌}
use dev_ops_agent_swarm.Messaging.Message.{Message}
use dev_ops_agent_swarm.Orchestrator.Agent.{
  publish_lifecycle, update_incident_status, update_incident_timeline, with_fsm, try_transition,
}
use dev_ops_agent_swarm.Orchestrator.Escalation.{escalate_to_human}
use dev_ops_agent_swarm.Orchestrator.Fsm.{
  State, proposing_remediation, safety_review, executing, verifying, resolved, Fsm, name,
  should_retry, increment_retry,
}
use dev_ops_agent_swarm.Orchestrator.Router.{update_agent_status}
use dev_ops_agent_swarm.Orchestrator.State.{Incident, O, update_incident, put_fsm}
use dev_ops_agent_swarm.Orchestrator.Timeline.{add_event, saved_timeline, generate_postmortem}

abbrev pub state_field : State → Fields
state_field s = field "state" (str (name s)) end

-- the row of an incident that has been diagnosed; `diagnosis.get("root_cause", {})` has `.get`
-- only if it is a `dict`
abbrev pub with_cause : ℕ → Message → Incident → Result Fields → Result Incident
with_cause now msg inc (raise e) = raise e
with_cause now msg inc (ok cause) =
    let category = get_or "category" null cause in
    let confidence = get_or "confidence" (int (pos 0)) msg.payload in
    ok (record inc {
      status = "proposing_remediation";
      state_entered_at = now;
      updated_at = now;
      diagnosis = some msg.payload;
      diagnosis_confidence = confidence;
      root_cause_category = category;
      root_cause_service = get_or "service" null cause;
      timeline = saved_timeline inc.timeline (
          add_event now inc.timeline "diagnosis_complete" msg.source_agent
            (f_string
              (str "Diagnosis: " ∷ category ∷ str " (" ∷ confidence ∷ str "% confidence)" ∷ []))
            (field "diagnosis" (dict msg.payload) end));
    })

unfoldable pub diagnosed : ℕ → Message → Incident → Result Incident
diagnosed now msg inc =
    with_cause now msg inc (as_dict (get_or "root_cause" (dict end) msg.payload))

unfoldable pub handle_diagnosis_result : ℕ → Message → O (Unit {0})
handle_diagnosis_result now msg = with_fsm msg λ fsm.
    try_transition now proposing_remediation msg fsm (return tt) λ _. do
      update_incident msg.correlation_id (diagnosed now msg)
      publish_lifecycle "incident.updated" msg.correlation_id (state_field proposing_remediation)

-- the branches of `_handle_safety_decision` and `_handle_human_approval` that approve
unfoldable pub approve_action : ℕ → Message → String → String → Fsm → O (Unit {0})
approve_action now msg agent summary fsm = try_transition now executing msg fsm (return tt) λ _. do
  update_incident_timeline now msg.correlation_id "safety_approved" agent (str summary)
  update_incident_status now msg.correlation_id executing
  publish_lifecycle "incident.updated" msg.correlation_id (state_field executing)

-- the branches that retry after a rejection or a failed execution: the count goes up, the event is
-- recorded, and the machine returns to `proposing_remediation` if it can
unfoldable pub retry_or_escalate : ℕ → Message → String → Value → Fsm → O (Unit {0})
retry_or_escalate now msg event_type summary fsm =
    if should_retry fsm
    then (do
      let counted = increment_retry now fsm
      put_fsm msg.correlation_id counted
      update_incident_timeline now msg.correlation_id event_type msg.source_agent summary
      try_transition now proposing_remediation msg counted (return tt) (λ _. return tt))
    else escalate_to_human msg.correlation_id fsm

unfoldable pub await_human : ℕ → Message → Fsm → O (Unit {0})
await_human now msg fsm = do
  try_transition now safety_review msg fsm (return tt) (λ _. return tt)
  update_incident_timeline now msg.correlation_id "safety_approved" msg.source_agent
      (str "Pending human approval")
  update_incident_status now msg.correlation_id safety_review

unfoldable pub decide : ℕ → Message → Value → Fsm → O (Unit {0})
decide now msg status fsm =
    if is_text "approved" status
    then approve_action now msg msg.source_agent "Action approved by safety agent" fsm
    else if is_text "rejected" status
    then retry_or_escalate now msg "safety_rejected"
        (f_string (str "Rejected: " ∷ get_or "reason" (str "") msg.payload ∷ [])) fsm
    else if is_text "pending_human_approval" status
    then await_human now msg fsm
    else return tt

unfoldable pub handle_safety_decision : ℕ → Message → O (Unit {0})
handle_safety_decision now msg = with_fsm msg (decide now msg (get_or "status" null msg.payload))

-- the row of an incident whose remediation succeeded
unfoldable pub resolved_row : ℕ → String → Message → Incident → Incident
resolved_row now agent_id msg inc =
    let executed =
      add_event now inc.timeline "action_executed" msg.source_agent
        (f_string (str "Action executed: " ∷ get_or "action_type" (str "unknown") msg.payload ∷ []))
        end in
    let verified =
      add_event now executed "verification_passed" msg.source_agent (str "Verification passed")
        end in
    let timeline = add_event now verified "resolved" agent_id (str "Incident resolved") end in
    let summary = get_or "details" (str "Auto-resolved") msg.payload in
    record inc {
      status = "resolved";
      state_entered_at = now;
      updated_at = now;
      resolved_at = some now;
      auto_resolved = true;
      resolution_summary = summary;
      remediation_actions = msg.payload ∷ [];
      timeline = saved_timeline inc.timeline timeline;
      postmortem = some (
          generate_postmortem (record {
            incident_id = inc.id;
            severity = inc.severity;
            status = "resolved";
            created_at = some inc.created_at;
            resolved_at = some now;
            timeline = timeline;
            root_cause_category = inc.root_cause_category;
            root_cause_service = inc.root_cause_service;
            resolution_summary = summary;
          }));
    }

unfoldable pub execution_succeeded : ℕ → Message → Fsm → O (Unit {0})
execution_succeeded now msg fsm = try_transition now verifying msg fsm (return tt) λ checking.
    try_transition now resolved msg checking (return tt) λ _. do
      s ← get_agent
      update_incident msg.correlation_id (λ inc. ok (resolved_row now s.agent_id msg inc))
      publish_lifecycle "incident.resolved" msg.correlation_id end

unfoldable pub handle_execution_result : ℕ → Message → O (Unit {0})
handle_execution_result now msg = with_fsm msg λ fsm.
    if is_text "success" (get_or "status" null msg.payload)
    then execution_succeeded now msg fsm
    else retry_or_escalate now msg "action_executed"
        (f_string (str "Execution failed: " ∷ get_or "details" (str "") msg.payload ∷ [])) fsm

unfoldable pub handle_heartbeat : ℕ → Message → O (Unit {0})
handle_heartbeat now msg = do
  s ← get_agent
  registry ← lift (update_agent_status now msg.payload s.registry)
  modify λ t. record t { registry = registry }

unfoldable pub handle_human_approval : ℕ → Message → O (Unit {0})
handle_human_approval now msg = with_fsm msg λ fsm.
    let decision = get_or "decision" null msg.payload in
    if is_text "approve" decision
    then approve_action now msg "human" "Approved by human operator" fsm
    else if is_text "reject" decision
    then (do
      update_incident_timeline now msg.correlation_id "safety_rejected" "human" (
          f_string
            (str "Rejected: " ∷ get_or "reason" (str "Rejected by operator") msg.payload ∷ []))
      escalate_to_human msg.correlation_id fsm)
    else return tt

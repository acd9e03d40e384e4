-- ===== src/Orchestrator/Invariant/Handling.antt =====
-- Every handler, the recovery and the loop keep the orchestrator's invariant.
use dev_ops_agent_swarm.Base.{
  ℕ, ◌≡◌, refl, String, [], ◌∷◌, ◌++◌, Option, none, some, lookup, insert, All-lookup, All-insert,
  arith, subst,
}
use dev_ops_agent_swarm.Base.Result.{Result, ok, raise}
use dev_ops_agent_swarm.Base.Value.{Value, get_or, dict, end, as_dict, null, Fields, is_text}
use dev_ops_agent_swarm.Messaging.Keeps.{
  Keeps, Keeps->>=, Keeps->>, Keeps-return, Keeps-get_agent, Keeps-modify, Keeps-lift,
  Keeps-lift_ok, Keeps-match_option, Keeps-if, Keeps-build, Keeps-publish,
}
use dev_ops_agent_swarm.Messaging.Message.{Message}
use dev_ops_agent_swarm.Orchestrator.Agent.{
  with_fsm, handle_anomaly, open_incident, insert_incident, add_rows, new_incident, new_anomaly,
}
use dev_ops_agent_swarm.Orchestrator.Fsm.{Fsm, should_retry}
use dev_ops_agent_swarm.Orchestrator.Handlers.{
  diagnosed, with_cause, handle_diagnosis_result, approve_action, retry_or_escalate, await_human,
  decide, handle_safety_decision, execution_succeeded, handle_execution_result, handle_heartbeat,
  handle_human_approval, resolved_row,
}
use dev_ops_agent_swarm.Orchestrator.Invariant.{IsTracked, IsValid}
use dev_ops_agent_swarm.Orchestrator.Invariant.Parts.{
  transition-IsTracked, increment_retry-IsTracked, init-IsTracked, put_fsm-Keeps,
  increment_processed-Keeps, session-Keeps, update_incident-Keeps, update_incident_status-Keeps,
  update_incident_timeline-Keeps, try_transition-Keeps, publish_lifecycle-Keeps,
  escalate_to_human-Keeps,
}
use dev_ops_agent_swarm.Orchestrator.Routes.{route_to_diagnoser}
use dev_ops_agent_swarm.Orchestrator.State.{Incident, Orchestrator, O}

with_fsm-Keeps :
    (msg : Message) (body : Fsm → O (Unit {0}))
    → ((f : Fsm) → IsTracked (msg.correlation_id, f) → Keeps IsValid (body f))
    → Keeps IsValid (with_fsm msg body)
with_fsm-Keeps msg body hb = Keeps->> increment_processed-Keeps (
    Keeps-get_agent λ s v.
      Keeps-match_option (Keeps-return tt)
        λ f e. hb f (All-lookup IsTracked msg.correlation_id s.active_fsms v.tracked e))

insert_incident-Keeps : (now : ℕ) (msg : Message) → Keeps IsValid (insert_incident now msg)
unfolding insert_incident
insert_incident-Keeps now msg =
    session-Keeps _ λ s t v e. inserted s t v (lookup msg.correlation_id s.incidents) e
  where
    inserted :
        (s t : Orchestrator)
        → IsValid s
        → (o : Option Incident) → add_rows now msg s o ≡ ok t
        → IsValid t
    inserted s t v (some _) e = cc
    inserted s t v none e =
        let same : record s {
          incidents = insert msg.correlation_id (new_incident now msg) s.incidents;
          anomalies = s.anomalies ++ new_anomaly now msg ∷ [];
        }
            ≡ t =
          ground arith in
        subst IsValid same (record {
          tracked = v.tracked;
          stored =
              All-insert (λ (x : String × Incident). x.1.id ≡ x.0) msg.correlation_id _ s.incidents
                v.stored refl;
        })

diagnosed-id :
    (now : ℕ) (msg : Message) (inc changed : Incident)
    → diagnosed now msg inc ≡ ok changed
    → changed.id ≡ inc.id
unfolding diagnosed
diagnosed-id now msg inc changed = same_id (as_dict (get_or "root_cause" (dict end) msg.payload))
  where
    same_id : (r : Result Fields) → with_cause now msg inc r ≡ ok changed → changed.id ≡ inc.id
    same_id (raise e) h = cc
    same_id (ok cause) h = ground arith

pub handle_diagnosis_result-Keeps :
    (now : ℕ) (msg : Message) → Keeps IsValid (handle_diagnosis_result now msg)
unfolding handle_diagnosis_result
handle_diagnosis_result-Keeps now msg = with_fsm-Keeps msg _ λ f h.
    try_transition-Keeps now _ msg f _ _ h (Keeps-return tt) λ g k.
      Keeps->> (update_incident-Keeps msg.correlation_id (diagnosed now msg) (diagnosed-id now msg))
        (publish_lifecycle-Keeps _ _ _)

approve_action-Keeps :
    (now : ℕ) (msg : Message) (agent summary : String) (f : Fsm)
    → IsTracked (msg.correlation_id, f)
    → Keeps IsValid (approve_action now msg agent summary f)
unfolding approve_action
approve_action-Keeps now msg agent summary f h =
    try_transition-Keeps now _ msg f _ _ h (Keeps-return tt) λ g k.
      Keeps->> (update_incident_timeline-Keeps now _ _ agent _)
        (Keeps->> (update_incident_status-Keeps now _ _) (publish_lifecycle-Keeps _ _ _))

retry_or_escalate-Keeps :
    (now : ℕ) (msg : Message) (kind : String) (summary : Value) (f : Fsm)
    → IsTracked (msg.correlation_id, f)
    → Keeps IsValid (retry_or_escalate now msg kind summary f)
unfolding retry_or_escalate
retry_or_escalate-Keeps now msg kind summary f h =
    Keeps-if (should_retry f)
      (λ e.
        let counted = increment_retry-IsTracked now msg.correlation_id f h e in
        Keeps->> (put_fsm-Keeps _ _ counted) (
          Keeps->> (update_incident_timeline-Keeps now _ kind _ summary) (
            try_transition-Keeps now _ msg _ _ _ counted (Keeps-return tt)
              (λ g k. Keeps-return tt))))
      (λ _. escalate_to_human-Keeps msg.correlation_id f)

await_human-Keeps :
    (now : ℕ) (msg : Message) (f : Fsm)
    → IsTracked (msg.correlation_id, f)
    → Keeps IsValid (await_human now msg f)
unfolding await_human
await_human-Keeps now msg f h =
    Keeps->> (try_transition-Keeps now _ msg f _ _ h (Keeps-return tt) (λ g k. Keeps-return tt))
      (Keeps->> (update_incident_timeline-Keeps now _ _ _ _) (update_incident_status-Keeps now _ _))

decide-Keeps :
    (now : ℕ) (msg : Message) (status : Value) (f : Fsm)
    → IsTracked (msg.correlation_id, f)
    → Keeps IsValid (decide now msg status f)
unfolding decide
decide-Keeps now msg status f h =
    Keeps-if (is_text "approved" status) (λ _. approve_action-Keeps now msg _ _ f h)
      λ _.
        Keeps-if (is_text "rejected" status) (λ _. retry_or_escalate-Keeps now msg _ _ f h)
          λ _.
            Keeps-if (is_text "pending_human_approval" status) (λ _. await_human-Keeps now msg f h)
              (λ _. Keeps-return tt)

pub handle_safety_decision-Keeps :
    (now : ℕ) (msg : Message) → Keeps IsValid (handle_safety_decision now msg)
unfolding handle_safety_decision
handle_safety_decision-Keeps now msg = with_fsm-Keeps msg _ (λ f h. decide-Keeps now msg _ f h)

execution_succeeded-Keeps :
    (now : ℕ) (msg : Message) (f : Fsm)
    → IsTracked (msg.correlation_id, f)
    → Keeps IsValid (execution_succeeded now msg f)
unfolding execution_succeeded resolved_row
execution_succeeded-Keeps now msg f h =
    try_transition-Keeps now _ msg f _ _ h (Keeps-return tt) λ g k.
      try_transition-Keeps now _ msg g _ _ k (Keeps-return tt) λ _ _. Keeps-get_agent λ s v.
        Keeps->> (update_incident-Keeps _ _ (λ inc changed e. ground arith))
          (publish_lifecycle-Keeps _ _ _)

pub handle_execution_result-Keeps :
    (now : ℕ) (msg : Message) → Keeps IsValid (handle_execution_result now msg)
unfolding handle_execution_result
handle_execution_result-Keeps now msg = with_fsm-Keeps msg _ λ f h.
    Keeps-if (is_text "success" (get_or "status" null msg.payload))
      (λ _. execution_succeeded-Keeps now msg f h) (λ _. retry_or_escalate-Keeps now msg _ _ f h)

pub handle_heartbeat-Keeps : (now : ℕ) (msg : Message) → Keeps IsValid (handle_heartbeat now msg)
unfolding handle_heartbeat
handle_heartbeat-Keeps now msg = Keeps-get_agent λ s v.
    Keeps->>= (Keeps-lift _)
      λ r. Keeps-modify _ (λ t u. record { tracked = u.tracked; stored = u.stored })

pub handle_human_approval-Keeps :
    (now : ℕ) (msg : Message) → Keeps IsValid (handle_human_approval now msg)
unfolding handle_human_approval
handle_human_approval-Keeps now msg = with_fsm-Keeps msg _ λ f h.
    Keeps-if (is_text "approve" (get_or "decision" null msg.payload))
      (λ _. approve_action-Keeps now msg _ _ f h)
      λ _.
        Keeps-if (is_text "reject" (get_or "decision" null msg.payload))
          (λ _. Keeps->> (update_incident_timeline-Keeps now _ _ _ _) (escalate_to_human-Keeps _ f))
          (λ _. Keeps-return tt)

open_incident-Keeps : (now : ℕ) (msg : Message) → Keeps IsValid (open_incident now msg)
unfolding open_incident route_to_diagnoser
open_incident-Keeps now msg = Keeps->> (insert_incident-Keeps now msg) (
    Keeps-lift_ok λ fresh e. Keeps-lift_ok λ f k.
      let tracked =
        transition-IsTracked now _ msg.correlation_id fresh (init-IsTracked _ _ _ now e) k in
      Keeps->> (put_fsm-Keeps _ f tracked) (
        Keeps->> (update_incident_status-Keeps now _ _) (
          Keeps-get_agent λ s v.
            Keeps->> (Keeps->>= (Keeps-build _) (λ m. Keeps-publish _ m))
              (publish_lifecycle-Keeps _ _ _))))

pub handle_anomaly-Keeps : (now : ℕ) (msg : Message) → Keeps IsValid (handle_anomaly now msg)
unfolding handle_anomaly
handle_anomaly-Keeps now msg = Keeps->> increment_processed-Keeps (
    Keeps-get_agent
      λ s v. Keeps-match_option (open_incident-Keeps now msg) (λ _ _. Keeps-return tt))

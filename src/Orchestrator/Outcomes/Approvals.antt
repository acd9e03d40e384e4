-- ===== src/Orchestrator/Outcomes/Approvals.antt =====
-- Safety decisions, operator approvals and execution results.
use dev_ops_agent_swarm.Base.{
  ℕ, ◌+◌, ◌≡◌, refl, true, String, List, length, length-append, leb, if◌then◌else◌, arith, [], ◌∷◌,
  some, lookup, insert, subst, sym, ◌∙◌,
}
use dev_ops_agent_swarm.Base.Result.{ok}
use dev_ops_agent_swarm.Base.Value.{Value, Fields, null, get_or, str, end, f_string}
use dev_ops_agent_swarm.Messaging.Client.{World, done, effects, return}
use dev_ops_agent_swarm.Messaging.Message.{Message}
use dev_ops_agent_swarm.Orchestrator.Agent.{
  publish_lifecycle, try_transition, update_incident_timeline,
}
use dev_ops_agent_swarm.Orchestrator.Fsm.{
  proposing_remediation, executing, verifying, resolved, Fsm, transition, move, should_retry,
  increment_retry,
}
use dev_ops_agent_swarm.Orchestrator.Fsm.Graph.{◌⟶◌, verify, resolve, transition_iff}
use dev_ops_agent_swarm.Orchestrator.Handlers.{
  handle_safety_decision, handle_human_approval, handle_execution_result, decide, approve_action,
  execution_succeeded, resolved_row, retry_or_escalate,
}
use dev_ops_agent_swarm.Orchestrator.Outcomes.Healthy.{
  IsHealthy, announced, publish_lifecycle_healthy, update_incident_healthy, >>_done,
  lifecycle_draft,
}
use dev_ops_agent_swarm.Orchestrator.Timeline.{
  Event, Postmortem, add_event, saved_timeline, generate_postmortem,
}
use dev_ops_agent_swarm.Orchestrator.State.{
  Incident, Orchestrator, increment_processed, put_fsm, update_incident,
}

-- the world with one more message counted
abbrev pub counted : World Orchestrator → World Orchestrator
counted w = record w {
  agent = record (w.agent) { messages_processed = w.agent.messages_processed + 1 };
}

-- An approval by the safety agent of an incident whose state has no edge to `executing` is dropped:
-- only the message is counted, and nothing is raised, stored or published. So it is in
-- `proposing_remediation`, the state that a diagnosis leads to.
pub safety_approval-dropped :
    (now : ℕ) (msg : Message) (w : World Orchestrator) (f : Fsm)
    → lookup msg.correlation_id w.agent.active_fsms ≡ some f
    → ¬ (f.state ⟶ executing)
    → get_or "status" null msg.payload ≡ str "approved"
    → handle_safety_decision now msg w ≡ done tt (counted w)
unfolding handle_safety_decision decide approve_action effects increment_processed
safety_approval-dropped now msg w f found blocked a =
    rw (found, a, (transition_iff now executing f).1.1 blocked) refl

-- The same of an operator's approval.
pub human_approval-dropped :
    (now : ℕ) (msg : Message) (w : World Orchestrator) (f : Fsm)
    → lookup msg.correlation_id w.agent.active_fsms ≡ some f
    → ¬ (f.state ⟶ executing)
    → get_or "decision" null msg.payload ≡ str "approve"
    → handle_human_approval now msg w ≡ done tt (counted w)
unfolding handle_human_approval approve_action effects increment_processed
human_approval-dropped now msg w f found blocked a =
    rw (found, a, (transition_iff now executing f).1.1 blocked) refl

-- What an incident's row becomes when it is resolved: its postmortem counts three more events, but
-- its own timeline has them only if it was empty.
abbrev pub IsResolved : Incident → Incident → Type 0
IsResolved inc row =
    (row.status ≡ "resolved")
    × ((p : Postmortem) × (row.postmortem ≡ some p) × (p.total_events ≡ length inc.timeline + 3))
    × (length row.timeline ≡ (if leb (length inc.timeline) 0 then 3 else length inc.timeline))

length-add_event :
    (now : ℕ) (es : List Event) (kind agent : String) (summary : Value) (details : Fields)
    → length (add_event now es kind agent summary details) ≡ length es + 1
unfolding add_event
length-add_event now es kind agent summary details = length-append es _

length-saved_timeline :
    (old changed : List Event)
    → length changed ≡ length old + 3
    → length (saved_timeline old changed) ≡ (if leb (length old) 0 then 3 else length old)
unfolding saved_timeline
length-saved_timeline [] changed h = h
length-saved_timeline (e ∷ es) changed h = ground arith

resolved_row-IsResolved :
    (now : ℕ) (agent_id : String) (msg : Message) (inc : Incident)
    → IsResolved inc (resolved_row now agent_id msg inc)
unfolding resolved_row generate_postmortem
resolved_row-IsResolved now agent_id msg inc = (
  refl,
  (_, refl, longer _ _ _ _ _ _ _ _ _ _ _ _),
  length-saved_timeline inc.timeline _ (longer _ _ _ _ _ _ _ _ _ _ _ _),
)
  where
    longer :
        (k l m a b c : String) (s t u : Value) (d e f : Fields)
        → length
            (add_event now (add_event now (add_event now inc.timeline k a s d) l b t e) m c u f)
          ≡ length inc.timeline + 3
    longer k l m a b c s t u d e f = omega (
      arith,
      length-add_event now (add_event now (add_event now inc.timeline k a s d) l b t e) m c u f,
      length-add_event now (add_event now inc.timeline k a s d) l b t e,
      length-add_event now inc.timeline k a s d,
    )

-- The fields after a successful execution of an incident in `executing`.
abbrev pub resolved_fields : ℕ → Message → Orchestrator → Fsm → Incident → Orchestrator
resolved_fields now msg s f inc = record s {
  messages_processed = s.messages_processed + 1;
  active_fsms =
      insert msg.correlation_id (move now resolved (move now verifying f))
        (insert msg.correlation_id (move now verifying f) s.active_fsms);
  incidents = insert msg.correlation_id (resolved_row now s.agent_id msg inc) s.incidents;
  db_refusals = [];
}

-- A success reported for an incident in `executing`, with bus and database up, resolves it: the
-- machine goes through `verifying` to `resolved`, the row gets the resolution and the postmortem, and
-- `incident.resolved` is published once. The row says `resolved` and its postmortem counts the
-- three new events, but its timeline has them only if it was empty: one with events keeps its length.
pub handle_execution_result-resolves :
    (now : ℕ) (msg : Message) (w : World Orchestrator) (f : Fsm) (inc : Incident)
    → IsHealthy w
    → lookup msg.correlation_id w.agent.active_fsms ≡ some f
    → lookup msg.correlation_id w.agent.incidents ≡ some inc
    → f.state ≡ executing
    → get_or "status" null msg.payload ≡ str "success"
    → handle_execution_result now msg w
        ≡ done tt (record {
          agent = resolved_fields now msg w.agent f inc;
          bus = announced w "incident.resolved" msg.correlation_id end;
        })
      × IsResolved inc (resolved_row now w.agent.agent_id msg inc)
unfolding handle_execution_result execution_succeeded effects increment_processed put_fsm announced
    lifecycle_draft
handle_execution_result-resolves now msg w f inc ready found row at ok' =
    let first : transition now verifying f ≡ ok (move now verifying f) =
      (transition_iff now verifying f).0.1 (subst (λ s. s ⟶ verifying) (sym at) verify) in
    let second : transition now resolved (move now verifying f)
        ≡ ok (move now resolved (move now verifying f)) =
      (transition_iff now resolved (move now verifying f)).0.1 (unfold move in resolve) in
    let f'' = move now resolved (move now verifying f) in
    let s = record (w.agent) {
      messages_processed = w.agent.messages_processed + 1;
      active_fsms =
          insert msg.correlation_id f''
            (insert msg.correlation_id (move now verifying f) w.agent.active_fsms);
    } in
    let row' = λ (x : Incident). ok (resolved_row now w.agent.agent_id msg x) in
    let w1 : World Orchestrator = record w { agent = s } in
    (
      rw (found, ok', first, second)
          (>>_done (update_incident msg.correlation_id row')
              (publish_lifecycle "incident.resolved" msg.correlation_id end) w1
              (update_incident_healthy msg.correlation_id row' w1 inc
                (resolved_row now w.agent.agent_id msg inc) ready.db_up row refl)
            ∙ publish_lifecycle_healthy "incident.resolved" msg.correlation_id end _ ready.connected
                ready.bus_up),
      resolved_row-IsResolved now w.agent.agent_id msg inc,
    )

-- the row with a rejection noted
abbrev pub noted : ℕ → Message → Incident → Incident
noted now msg inc = record inc {
  timeline = saved_timeline inc.timeline (
      add_event now inc.timeline "safety_rejected" msg.source_agent
        (f_string (str "Rejected: " ∷ get_or "reason" (str "") msg.payload ∷ [])) end);
  updated_at = now;
}

-- The fields after a rejection of an incident in `safety_review`.
abbrev pub rejected_fields : ℕ → Message → Orchestrator → Fsm → Incident → Orchestrator
rejected_fields now msg s f inc = record s {
  messages_processed = s.messages_processed + 1;
  active_fsms =
      insert msg.correlation_id (move now proposing_remediation (increment_retry now f))
        (insert msg.correlation_id (increment_retry now f) s.active_fsms);
  incidents = insert msg.correlation_id (noted now msg inc) s.incidents;
  db_refusals = [];
}

-- With the database up, a rejection of an incident in `safety_review` or `executing` that is below
-- its retry limit sends the machine back to `proposing_remediation` with its retry count at 0, and
-- nothing is published. The event of the rejection is stored only if the row's timeline was empty.
pub safety_rejection-resets :
    (now : ℕ) (msg : Message) (w : World Orchestrator) (f : Fsm) (inc : Incident)
    → IsHealthy w
    → lookup msg.correlation_id w.agent.active_fsms ≡ some f
    → lookup msg.correlation_id w.agent.incidents ≡ some inc
    → f.state ⟶ proposing_remediation
    → should_retry f ≡ true
    → get_or "status" null msg.payload ≡ str "rejected"
    → (handle_safety_decision now msg w
        ≡ done tt (record w { agent = rejected_fields now msg w.agent f inc }))
      × ((move now proposing_remediation (increment_retry now f)).retry_count ≡ 0)
unfolding handle_safety_decision decide retry_or_escalate effects increment_processed put_fsm move
    update_incident_timeline
safety_rejection-resets now msg w f inc ready found row edge below no' =
    let g = increment_retry now f in
    let back : transition now proposing_remediation g ≡ ok (move now proposing_remediation g) =
      (transition_iff now proposing_remediation g).0.1 (unfold increment_retry in edge) in
    let w1 : World Orchestrator = record w {
      agent = record (w.agent) {
        messages_processed = w.agent.messages_processed + 1;
        active_fsms = insert msg.correlation_id g w.agent.active_fsms;
      };
    } in
    let row' = λ (x : Incident). ok (noted now msg x) in
    (
      rw (found, no', below)
          (>>_done (update_incident msg.correlation_id row')
              (try_transition now proposing_remediation msg g (return tt) (λ _. return tt)) w1
              (update_incident_healthy msg.correlation_id row' w1 inc (noted now msg inc)
                ready.db_up row refl)
            ∙ rw (back, try_transition) refl),
      refl,
    )

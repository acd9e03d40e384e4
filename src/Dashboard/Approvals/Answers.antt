-- ===== src/Dashboard/Approvals/Answers.antt =====
-- What the operators' answers send to the orchestrator.
use dev_ops_agent_swarm.Base.{
  ℕ, ◌+◌, ◌≡◌, refl, String, true, false, [], ◌∷◌, ◌++◌, Option, some, lookup, ◌==◌,
}
use dev_ops_agent_swarm.Base.Value.{Value, Fields, str, null, get, get_or}
use dev_ops_agent_swarm.Messaging.Client.{sent, World, Step, done, effects}
use dev_ops_agent_swarm.Messaging.Message.{Message, build_message}
use dev_ops_agent_swarm.Messaging.Subjects.{human_approvals_responses}
use dev_ops_agent_swarm.Orchestrator.State.{Incident}
use dev_ops_agent_swarm.Dashboard.Approvals.{
  Answer, json, http_exception, Rows, respond, approve_action, reject_action, response_draft,
}

-- A route that answers with success has sent one message, the operator's `decision` on the incident.
pub record IsSent (decision : String) (incident_id : String) (w : World Rows)
    (step : Step Rows Answer) : Type 0 where
  pub answer : Fields
  pub after : World Rows
  pub msg : Message
  pub returned : step ≡ done (json answer) after
  pub outbox : after.bus.outbox ≡ w.bus.outbox ++ (human_approvals_responses, msg) ∷ []
  pub about : msg.correlation_id ≡ incident_id
  pub decided : get_or "decision" null msg.payload ≡ str decision

abbrev answer_to : World Rows → String → Fields → Message
answer_to w incident_id payload =
    build_message (w.bus.uuids w.bus.built) (response_draft incident_id payload)

abbrev after_answer : World Rows → Message → World Rows
after_answer w msg = record w {
  bus = sent (record (w.bus) { built = w.bus.built + 1 }) [] human_approvals_responses msg;
}

-- both routes, with their payload and their answer
respond-IsSent_lem :
    (decision incident_id : String) (payload answer : Fields) (w : World Rows) (inc : Incident)
    → lookup incident_id w.agent.incidents ≡ some inc
    → (incident_id == "") ≡ false
    → (inc.status == "safety_review") ≡ true
    → w.bus.connected ≡ true
    → w.bus.refusals ≡ []
    → get_or "decision" null payload ≡ str decision
    → IsSent decision incident_id w (respond incident_id payload answer w)
unfolding respond effects build_message
respond-IsSent_lem decision incident_id payload answer w inc row named review up clear decided =
    record {
      answer = answer;
      after = after_answer w (answer_to w incident_id payload);
      msg = answer_to w incident_id payload;
      returned = rw (row, review, up, clear) refl;
      outbox = refl;
      about = rw named refl;
      decided = decided;
    }

module _ (isoformat : ℕ → String) where
  -- On a bus that refuses nothing, both routes send exactly one message for an incident under
  -- review, whose id is not empty: it carries the id as correlation, and the decision of the route.
  pub respond-IsSent :
      (now : ℕ) (incident_id : String) (body : Option Value) (reason : Value) (w : World Rows)
      (inc : Incident)
      → lookup incident_id w.agent.incidents ≡ some inc
      → (incident_id == "") ≡ false
      → (inc.status == "safety_review") ≡ true
      → w.bus.connected ≡ true
      → w.bus.refusals ≡ []
      → IsSent "approve" incident_id w (approve_action isoformat now incident_id body w)
        × IsSent "reject" incident_id w (reject_action isoformat now incident_id reason w)
  unfolding approve_action reject_action get
  respond-IsSent now incident_id body reason w inc row named review up clear = (
    respond-IsSent_lem "approve" incident_id _ _ w inc row named review up clear refl,
    respond-IsSent_lem "reject" incident_id _ _ w inc row named review up clear refl,
  )

  -- For an incident whose row is not under review, both routes answer with an error and
  -- change nothing.
  pub respond-refused :
      (now : ℕ) (incident_id : String) (body : Option Value) (reason : Value) (w : World Rows)
      (inc : Incident)
      → lookup incident_id w.agent.incidents ≡ some inc
      → (inc.status == "safety_review") ≡ false
      → (approve_action isoformat now incident_id body w
          ≡ done (http_exception 400 "Incident is not pending approval") w)
        × (reject_action isoformat now incident_id reason w
            ≡ done (http_exception 400 "Incident is not pending approval") w)
  unfolding respond approve_action reject_action effects
  respond-refused now incident_id body reason w inc row other =
      (rw (row, other) refl, rw (row, other) refl)

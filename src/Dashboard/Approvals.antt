-- ===== src/Dashboard/Approvals.antt =====
-- The routes by which an operator answers (dashboard/api/routes/approvals.py). The rows are the
-- database's, and `isoformat` gives the text of a time.
pub mod Answers
use dev_ops_agent_swarm.Base.{ℕ, String, Option, none, some, Dict, lookup, if◌then◌else◌, ◌==◌}
use dev_ops_agent_swarm.Base.Value.{Value, Fields, end, field, str}
use dev_ops_agent_swarm.Messaging.Client.{
  M, build, publish, get_agent, match_option, return, ◌>>=◌, ◌>>◌,
}
use dev_ops_agent_swarm.Messaging.Message.{Draft}
use dev_ops_agent_swarm.Messaging.Subjects.{human_approvals_responses}
use dev_ops_agent_swarm.Orchestrator.State.{Incident}

-- what a route answers: a JSON object, or an `HTTPException`
pub data Answer : Type 0 where
  json : Fields → Answer
  http_exception : ℕ → String → Answer

-- the rows that the session finds
pub record Rows : Type 0 where
  pub incidents : Dict Incident

-- `body.reason if body else ""`
abbrev pub reason_of : Option Value → Value
reason_of none = str ""
reason_of (some reason) = reason

abbrev pub response_draft : String → Fields → Draft
response_draft incident_id payload = record {
  source_agent = "dashboard";
  target_agent = "orchestrator";
  message_type = "human_approval_response";
  payload = payload;
  correlation_id = some incident_id;
  context = none;
  priority = 0;
  ttl_seconds = 300;
}

abbrev pub approve_payload : String → String → Value → Fields
approve_payload incident_id at reason = field "incident_id" (str incident_id) (
    field "decision" (str "approve") (
      field "reason" reason
        (field "approved_by" (str "operator") (field "approved_at" (str at) end))))

abbrev pub reject_payload : String → String → Value → Fields
reject_payload incident_id at reason = field "incident_id" (str incident_id) (
    field "decision" (str "reject") (
      field "reason" reason
        (field "rejected_by" (str "operator") (field "rejected_at" (str at) end))))

-- the tests that both routes begin with, and what follows them
unfoldable pub respond : String → Fields → Fields → M Rows Answer
respond incident_id payload answer = do
  rows ← get_agent
  match_option (lookup incident_id rows.incidents)
      (return (http_exception 404 "Incident not found"))
      λ incident.
        (if incident.status == "safety_review"
          then (do
            msg ← build (response_draft incident_id payload)
            publish human_approvals_responses msg
            return (json answer))
          else return (http_exception 400 "Incident is not pending approval"))

module _ (isoformat : ℕ → String) where
  unfoldable pub approve_action : ℕ → String → Option Value → M Rows Answer
  approve_action now incident_id body =
      respond incident_id (approve_payload incident_id (isoformat now) (reason_of body))
        (field "status" (str "approved") (field "incident_id" (str incident_id) end))

  unfoldable pub reject_action : ℕ → String → Value → M Rows Answer
  reject_action now incident_id reason =
      respond incident_id (reject_payload incident_id (isoformat now) reason) (
        field "status" (str "rejected")
          (field "incident_id" (str incident_id) (field "reason" reason end)))

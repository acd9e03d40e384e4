-- ===== src/Tests/Dashboard.antt =====
-- Witnesses for the routes and the bridge.
use dev_ops_agent_swarm.Base.{ℕ, ◌≡◌, [], ◌∷◌}
use dev_ops_agent_swarm.Base.{String, true, false, lookup, some, none, refl}
use dev_ops_agent_swarm.Base.Value.{str, null}
use dev_ops_agent_swarm.Messaging.Client.{World}
use dev_ops_agent_swarm.Orchestrator.State.{Incident}
use dev_ops_agent_swarm.Dashboard.Approvals.{Rows, approve_action, reject_action}
use dev_ops_agent_swarm.Dashboard.Approvals.Answers.{IsSent, respond-IsSent}
use dev_ops_agent_swarm.Dashboard.Bridge.Unheard.{Unheard, respond-Unheard}
use dev_ops_agent_swarm.Messaging.Sends.{Sends}

abbrev under_review : Incident
under_review = record {
  id = "i";
  status = "safety_review";
  severity = str "high";
  created_at = 0;
  updated_at = 0;
  state_entered_at = 0;
  resolved_at = none;
  diagnosis = none;
  diagnosis_confidence = null;
  root_cause_category = null;
  root_cause_service = null;
  remediation_actions = [];
  auto_resolved = false;
  resolution_summary = null;
  timeline = [];
  postmortem = none;
}

abbrev serving : World Rows
serving = record {
  agent = record {
    incidents = ("i", under_review) ∷ ("j", record under_review { status = "executing" }) ∷ [];
  };
  bus = record {
    connected = true;
    refusals = [];
    uuids =
        λ n. record { message_uuid = "m"; correlation_uuid = "c"; trace_uuid = "t"; created = 0 };
    built = 0;
    outbox = [];
  };
}

abbrev clock_text : ℕ → String
clock_text n = "now"

reviewed_row : lookup "i" serving.agent.incidents ≡ some under_review
unfolding lookup
reviewed_row = refl

respond-IsSent_example :
    IsSent "approve" "i" serving (approve_action clock_text 5 "i" none serving)
    × IsSent "reject" "i" serving (reject_action clock_text 5 "i" null serving)
respond-IsSent_example =
    respond-IsSent clock_text 5 "i" none null serving under_review reviewed_row refl refl refl refl

respond-Unheard_example :
    Sends Unheard (approve_action (λ t. "t") 7 "i" (some (str "fine")))
    × Sends Unheard (reject_action (λ t. "t") 7 "i" (str "risky"))
respond-Unheard_example = respond-Unheard (λ t. "t") 7 "i" (some (str "fine")) (str "risky")

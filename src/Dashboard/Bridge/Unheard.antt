-- ===== src/Dashboard/Bridge/Unheard.antt =====
-- What the clients hear of the operators' answers and of the incidents.
use dev_ops_agent_swarm.Base.{ℕ, ◌≡◌, refl, String, lookup, Option, none, ◌==◌}
use dev_ops_agent_swarm.Base.Value.{Value, Fields}
use dev_ops_agent_swarm.Dashboard.Approvals.{respond, approve_action, reject_action}
use dev_ops_agent_swarm.Dashboard.Bridge.{bridged}
use dev_ops_agent_swarm.Messaging.Client.{build}
use dev_ops_agent_swarm.Messaging.Message.{Message}
use dev_ops_agent_swarm.Messaging.Sends.{
  Sends, Sends->>=, Sends->>, Sends-return, Sends-get_agent, Sends-match_option, Sends-if,
  Sends-publish,
}
use dev_ops_agent_swarm.Messaging.Subjects.{human_approvals_responses}

-- a message that the bridge passes to no client
abbrev pub Unheard : String × Message → Type 0
Unheard (subject, msg) = bridged subject msg ≡ none

respond-Sends :
    (incident_id : String) (payload answer : Fields)
    → Sends Unheard (respond incident_id payload answer)
unfolding respond bridged build
respond-Sends incident_id payload answer = Sends->>= Sends-get_agent λ rows.
    Sends-match_option (lookup incident_id rows.incidents) (Sends-return _) λ incident.
      Sends-if (incident.status == "safety_review")
        (Sends->>= (record { sends = λ w h. h })
          λ msg. Sends->> (Sends-publish human_approvals_responses msg refl) (Sends-return _))
        (Sends-return _)

-- Whatever an operator answers by the two routes and however the routes end: each message that they
-- publish is one that the bridge passes to no client.
pub respond-Unheard :
    (isoformat : ℕ → String) (now : ℕ) (incident_id : String) (body : Option Value) (reason : Value)
    → Sends Unheard (approve_action isoformat now incident_id body)
      × Sends Unheard (reject_action isoformat now incident_id reason)
unfolding approve_action reject_action
respond-Unheard isoformat now incident_id body reason =
    (respond-Sends incident_id _ _, respond-Sends incident_id _ _)

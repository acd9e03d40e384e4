-- ===== src/Remediator/Agent/Gate.antt =====
-- When the remediator asks Docker or a service for anything, and when it publishes.
use dev_ops_agent_swarm.Base.{ℕ, ◌≡◌, refl, ◌∙◌, String, Bool, false, List, [], ◌∷◌, All}
use dev_ops_agent_swarm.Base.Result.{Result}
use dev_ops_agent_swarm.Base.Value.{Fields, is_text, get_or, null}
use dev_ops_agent_swarm.Messaging.Client.{World, deliver}
use dev_ops_agent_swarm.Messaging.Frame.{
  Frames, Frames->>=, Frames->>, Frames-return, Frames-get_agent, Frames-modify, Frames-lift,
  Frames-match_option, Frames-if, Frames-publish, deliver-Frames,
}
use dev_ops_agent_swarm.Messaging.Message.{Message}
use dev_ops_agent_swarm.Messaging.Subjects.{safety_reviews}
use dev_ops_agent_swarm.Remediator.Agent.{
  uuid4, remember, forget, propose_action, remediate, handle_diagnosis, decide,
  handle_safety_decision,
}
use dev_ops_agent_swarm.Remediator.Agent.Silence.{Asked, asked}
use dev_ops_agent_swarm.Remediator.State.{Remediator, Remediation, R, Outside}

-- what reaches the agent
pub data Input : Type 0 where
  diagnosis decision : Message → Input

-- the decision approves
abbrev pub is_approval : Input → Bool
is_approval (diagnosis _) = false
is_approval (decision msg) = is_text "approved" (get_or "status" null msg.payload)

abbrev asked_of : World Remediator → Asked
asked_of w = asked w.agent

module _ (o : Outside) where
  unfoldable pub handle : Result ℕ → Input → R (Unit {0})
  handle clock (diagnosis msg) = handle_diagnosis o clock msg
  handle clock (decision msg) = handle_safety_decision o clock msg

  abbrev pub message_of : Input → Message
  message_of (diagnosis msg) = msg
  message_of (decision msg) = msg

  -- the agent after deliveries, each at a time and with what the clock's expression gives
  abbrev pub serve : List (ℕ × Result ℕ × Input) → World Remediator → World Remediator
  serve [] w = w
  serve ((now, clock, i) ∷ rest) w =
      serve rest (deliver now (λ _. handle clock i) (message_of i) w).1

  module _ (clock : Result ℕ) where
    propose_action-Frames :
        (request : Message) (d a : Fields) → Frames asked_of (propose_action o clock request d a)
    unfolding propose_action uuid4
    propose_action-Frames request d a =
        Frames->>= (record { same = λ w. refl })
          λ id. Frames->>= (Frames-lift _) λ now. Frames-publish asked safety_reviews _

    remediate-Frames :
        (request : Message) (runbook : Fields) → Frames asked_of (remediate o clock request runbook)
    unfolding remediate remember
    remediate-Frames request runbook =
        Frames-if _
          (Frames->>= (Frames-lift _) λ raw.
            Frames->>= (Frames-lift _)
              λ action. Frames->> (Frames-modify _ λ w. refl) (propose_action-Frames request _ _))
          (Frames-return _)

    handle_diagnosis-Frames :
        (request : Message) → Frames asked_of (handle_diagnosis o clock request)
    unfolding handle_diagnosis
    handle_diagnosis-Frames request = Frames->>= Frames-get_agent λ s.
        Frames->>= (Frames-lift _)
          λ found. Frames-match_option found (Frames-return _) (remediate-Frames request)

    forget-Frames : (cid : String) → Frames asked_of (forget cid)
    unfolding forget
    forget-Frames cid = Frames-modify _ λ w. refl

    decide-Frames :
        (response : Message) (state : Remediation)
        → is_text "approved" (get_or "status" null response.payload) ≡ false
        → Frames asked_of (decide o clock response state)
    unfolding decide
    decide-Frames response state h = rw h (
        Frames-if (is_text "rejected" (get_or "status" null response.payload))
          (forget-Frames response.correlation_id)
          (Frames-if (is_text "pending_human_approval" (get_or "status" null response.payload))
            (Frames-return _) (Frames-return _)))

    handle-Frames : (i : Input) → is_approval i ≡ false → Frames asked_of (handle clock i)
    unfolding handle handle_safety_decision
    handle-Frames (diagnosis msg) h = handle_diagnosis-Frames msg
    handle-Frames (decision msg) h =
        Frames->>= Frames-get_agent
          λ s. Frames-match_option _ (Frames-return _) λ state. decide-Frames msg state h

  -- Whatever diagnoses and decisions are delivered, in any order and at any times: as long as no
  -- decision approves, no container is restarted and neither Docker nor a service is called.
  pub serve-asked :
      (inputs : List (ℕ × Result ℕ × Input)) (w : World Remediator)
      → All (λ x. is_approval x.2 ≡ false) inputs
      → asked (serve inputs w).agent ≡ asked w.agent
  serve-asked [] w h = refl
  serve-asked ((now, clock, i) ∷ rest) w h =
      serve-asked rest _ h.1
      ∙ deliver-Frames now (λ _. handle clock i) (message_of i) w (handle-Frames clock i h.0)

-- ===== src/Remediator/Agent/Publishing.antt =====
-- What the remediator publishes where the clock's expression raises.
use dev_ops_agent_swarm.Base.{ℕ, ◌≡◌, refl, ◌∙◌, ap, String, List, [], ◌∷◌}
use dev_ops_agent_swarm.Base.Result.{Result, Error, raise, name_error}
use dev_ops_agent_swarm.Base.Value.{Value, Fields, is_text, get_or, null, dict}
use dev_ops_agent_swarm.Messaging.Client.{World}
use dev_ops_agent_swarm.Messaging.Frame.{
  Frames, Frames->>=, Frames->>, Frames-return, Frames-get_agent, Frames-modify, Frames-lift,
  Frames-lift_raise, Frames-match_option, Frames-if, deliver-Frames,
}
use dev_ops_agent_swarm.Messaging.Message.{Message, utc_now}
use dev_ops_agent_swarm.Remediator.Agent.{
  uuid4, remember, forget, propose_action, remediate, handle_diagnosis, publish_completion_by,
  publish_completion, verify_fix, carry_out, decide, handle_safety_decision,
}
use dev_ops_agent_swarm.Remediator.Agent.Gate.{
  Input, diagnosis, decision, handle, serve, message_of,
}
use dev_ops_agent_swarm.Remediator.Agent.Silence.{
  kept, execute-Frames, rollback-Frames, verify-Frames,
}
use dev_ops_agent_swarm.Remediator.State.{Remediator, Remediation, R, Outside}

abbrev pub published : World Remediator → List (String × Message)
published w = w.bus.outbox

kept-published : {A : Type 0} {m : R A} → Frames kept m → Frames published m
kept-published h = record { same = λ w. ap (λ k. k.0.outbox) (h.same w) }

module _ (o : Outside) (e : Error) where
  uuid4-Frames : Frames published uuid4
  unfolding uuid4
  uuid4-Frames = record { same = λ w. refl }

  publish_completion_by-Frames :
      (response : Message) (state : Remediation) (result : String) (details : Value)
      → Frames published (publish_completion_by o (raise e) response state result details)
  unfolding publish_completion_by
  publish_completion_by-Frames response state result details =
      Frames->>= uuid4-Frames λ id. Frames-lift_raise e _

  propose_action-Frames :
      (request : Message) (d a : Fields) → Frames published (propose_action o (raise e) request d a)
  unfolding propose_action
  propose_action-Frames request d a = Frames->>= uuid4-Frames λ id. Frames-lift_raise e _

  handle_diagnosis-Frames :
      (request : Message) → Frames published (handle_diagnosis o (raise e) request)
  unfolding handle_diagnosis remediate remember
  handle_diagnosis-Frames request = Frames->>= Frames-get_agent λ s.
      Frames->>= (Frames-lift _) λ found. Frames-match_option found (Frames-return _) λ runbook.
        Frames-if _
          (Frames->>= (Frames-lift _) λ raw.
            Frames->>= (Frames-lift _)
              λ action. Frames->> (Frames-modify _ λ w. refl) (propose_action-Frames request _ _))
          (Frames-return _)

  forget-Frames : (cid : String) → Frames published (forget cid)
  unfolding forget
  forget-Frames cid = Frames-modify _ λ w. refl

  verify_fix-Frames :
      (response : Message) (state : Remediation)
      → Frames published (verify_fix o (raise e) response state)
  unfolding verify_fix
  verify_fix-Frames response state =
      Frames->>= (kept-published (verify-Frames o state.runbook state.diagnosis)) λ a.
        Frames-if a.0 (publish_completion_by-Frames response state _ _) (
          Frames->>= (kept-published (rollback-Frames o state.action))
            λ b. publish_completion_by-Frames response state _ _)

  carry_out-Frames :
      (response : Message) (state : Remediation)
      → Frames published (carry_out o (raise e) response state)
  unfolding carry_out
  carry_out-Frames response state = Frames->>= (Frames-lift _) λ v.
      Frames->>= (kept-published (execute-Frames o (dict state.action))) λ a.
        Frames->>
          (Frames-if a.0 (verify_fix-Frames response state)
            (publish_completion_by-Frames response state _ _))
          (forget-Frames response.correlation_id)

  handle_safety_decision-Frames :
      (response : Message) → Frames published (handle_safety_decision o (raise e) response)
  unfolding handle_safety_decision decide
  handle_safety_decision-Frames response = Frames->>= Frames-get_agent λ s.
      Frames-match_option _ (Frames-return _) λ state.
        Frames-if (is_text "rejected" (get_or "status" null response.payload))
          (forget-Frames response.correlation_id)
          (Frames-if (is_text "pending_human_approval" (get_or "status" null response.payload))
            (Frames-return _)
            (Frames-if (is_text "approved" (get_or "status" null response.payload))
              (carry_out-Frames response state) (Frames-return _)))

  handle-Frames : (i : Input) → Frames published (handle o (raise e) i)
  unfolding handle
  handle-Frames (diagnosis msg) = handle_diagnosis-Frames msg
  handle-Frames (decision msg) = handle_safety_decision-Frames msg

  abbrev pub unclocked : List (ℕ × Input) → List (ℕ × Result ℕ × Input)
  unclocked [] = []
  unclocked ((now, i) ∷ rest) = (now, raise e, i) ∷ unclocked rest

  -- Where the clock's expression raises, as it does without the import of `timezone`, the remediator
  -- publishes nothing: no proposal and no completion, whatever diagnoses and decisions it is sent.
  pub serve-published :
      (inputs : List (ℕ × Input)) (w : World Remediator)
      → published (serve o (unclocked inputs) w) ≡ published w
  serve-published [] w = refl
  serve-published ((now, i) ∷ rest) w =
      serve-published rest _
      ∙ deliver-Frames now (λ _. handle o (raise e) i) (message_of o i) w (handle-Frames i)

-- With the names that the module imports, no completion is published at any time.
publish_completion_lem :
    (o : Outside) (now : ℕ) (response : Message) (state : Remediation) (result : String)
    (details : Value)
    → Frames published (publish_completion o now response state result details)
unfolding publish_completion utc_now
publish_completion_lem o now = publish_completion_by-Frames o name_error

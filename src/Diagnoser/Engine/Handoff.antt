-- ===== src/Diagnoser/Engine/Handoff.antt =====
-- What the remediator makes of the diagnoser's messages.
use dev_ops_agent_swarm.Base.{
  ℕ, ◌≡◌, refl, String, Bool, true, false, List, [], ◌∷◌, All, subst, sym,
}
use dev_ops_agent_swarm.Base.Int.{ℤ}
use dev_ops_agent_swarm.Base.Result.{Result, ok, raise}
use dev_ops_agent_swarm.Base.Value.{Fields, get}
use dev_ops_agent_swarm.Diagnoser.Correlation.{Tables}
use dev_ops_agent_swarm.Diagnoser.Engine.{
  count_message, count_error, save_diagnosis, diagnosis_payload, diagnosed_message,
  publish_diagnosis, diagnose, process_anomaly, handle_anomaly,
}
use dev_ops_agent_swarm.Diagnoser.State.{Diagnoser, Outside, session, begun, conclude}
use dev_ops_agent_swarm.Messaging.Client.{World, done, world, deliver, effects}
use dev_ops_agent_swarm.Messaging.Message.{Message, Fresh}
use dev_ops_agent_swarm.Messaging.Sends.{
  Sends, Sends->>=, Sends->>, Sends-return, Sends-get_agent, Sends-next_fresh, Sends-modify,
  Sends-lift, Sends-match_result, Sends-attempt, Sends-if, Sends-publish, deliver-Sends,
}
use dev_ops_agent_swarm.Messaging.Subjects.{diagnoser_results}
use dev_ops_agent_swarm.Remediator.Agent.{handle_diagnosis}
use dev_ops_agent_swarm.Remediator.Runbooks.{find_match}
use dev_ops_agent_swarm.Remediator.State.{Remediator, Outside as RemediatorOutside}
use dev_ops_agent_swarm.Orchestrator.State.{Incident, refused}

-- a message on the subject of the results that the remediator's handler returns from at once, with
-- its fields and its connection as they were
abbrev pub Ignored : String × Message → Type 0
Ignored (subject, msg) =
    (subject ≡ diagnoser_results)
    × ((outside : RemediatorOutside) (clock : Result ℕ) (w : World Remediator)
        → handle_diagnosis outside clock msg w ≡ done tt w)

diagnosed_message-Ignored :
    (fresh : Fresh) (agent_id incident_id : String) (diagnosis : Fields) (confidence : ℤ)
    → Ignored (
      diagnoser_results,
      diagnosed_message fresh agent_id (diagnosis_payload incident_id diagnosis confidence),
    )
unfolding handle_diagnosis find_match effects get
diagnosed_message-Ignored fresh agent_id incident_id diagnosis confidence =
    (refl, λ outside clock w. refl)

module _ {P : String × Message → Type 0} where
  session-Sends : {A : Type 0} (f : Tables → Result (A × Tables)) → Sends P (session f)
  unfolding session
  session-Sends {A} f = record {
    sends = λ w h. concluded w (refused w.agent.db_refusals) (f (begun w.agent).tables) h;
  }
    where
      concluded :
          (w : World Diagnoser) (b : Bool) (r : Result (A × Tables))
          → All P w.bus.outbox
          → All P (world (conclude w (begun w.agent) b r)).bus.outbox
      concluded w true r h = h
      concluded w false (ok a) h = h
      concluded w false (raise e) h = h

module _ (o : Outside) where
  publish_diagnosis-Sends :
      (incident_id : String) (diagnosis : Fields) (confidence : ℤ)
      → Sends Ignored (publish_diagnosis incident_id diagnosis confidence)
  unfolding publish_diagnosis
  publish_diagnosis-Sends incident_id diagnosis confidence = Sends->>= Sends-get_agent λ s.
      Sends->>= Sends-next_fresh λ fresh.
        Sends-publish _ _
          (diagnosed_message-Ignored fresh s.agent_id incident_id diagnosis confidence)

  diagnose-Sends :
      (now : ℕ) (msg : Message) (inc : Incident) → Sends Ignored (diagnose o now msg inc)
  unfolding diagnose save_diagnosis
  diagnose-Sends now msg inc = Sends->>= (Sends-lift _) λ context. Sends->>= (Sends-lift _) λ a.
      Sends->>= (Sends-lift _)
        λ b. Sends->> (session-Sends _) (publish_diagnosis-Sends inc.id b.0 b.1)

  handle_anomaly-Sends :
      (id : String) (now : ℕ) (msg : Message) → Sends Ignored (handle_anomaly o id now msg)
  unfolding handle_anomaly process_anomaly count_message count_error
  handle_anomaly-Sends id now msg = Sends->> (Sends-modify _) (
      Sends->>=
        (Sends-attempt (
          Sends->>= (session-Sends _)
            λ r. Sends-if _ (diagnose-Sends now msg r.0) (Sends-return _)))
        λ outcome. Sends-match_result outcome (λ _. Sends-modify _) Sends-return)

  -- deliveries one after the other, each with the `uuid4` of an incident that it may open
  abbrev pub deliver_anomalies : List (ℕ × String × Message) → World Diagnoser → World Diagnoser
  deliver_anomalies [] w = w
  deliver_anomalies ((now, id, msg) ∷ rest) w =
      deliver_anomalies rest (deliver now (handle_anomaly o id now) msg w).1

  deliver_anomalies-All :
      (deliveries : List (ℕ × String × Message)) (w : World Diagnoser)
      → All Ignored w.bus.outbox
      → All Ignored (deliver_anomalies deliveries w).bus.outbox
  deliver_anomalies-All [] w h = h
  deliver_anomalies-All ((now, id, msg) ∷ rest) w h =
      deliver_anomalies-All rest (deliver now (handle_anomaly o id now) msg w).1
        (deliver-Sends now (handle_anomaly o id now) msg w (handle_anomaly-Sends id now msg) h)

  -- Whatever anomalies are delivered to a diagnoser that has published nothing, whatever the
  -- language model, the telemetry and the database answer: every message that it publishes is on
  -- the subject of the results, and the remediator's handler for that subject returns without
  -- proposing an action for it, with nothing changed or published.
  pub deliver_anomalies-Ignored :
      (deliveries : List (ℕ × String × Message)) (w : World Diagnoser)
      → w.bus.outbox ≡ []
      → All Ignored (deliver_anomalies deliveries w).bus.outbox
  deliver_anomalies-Ignored deliveries w empty =
      deliver_anomalies-All deliveries w (subst (All Ignored) (sym empty) tt)

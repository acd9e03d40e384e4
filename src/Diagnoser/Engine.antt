-- ===== src/Diagnoser/Engine.antt =====
-- `RCAEngine.handle_anomaly` and `publish_diagnosis` (agents/diagnoser/src/rca_engine.py). `id` is the
-- `uuid4` of an incident that the message may open, and `now` the time while it is handled.
pub mod Handoff
pub mod Losses
use dev_ops_agent_swarm.Base.{
  ℕ, ◌+◌, String, Bool, List, Option, none, some, Dict, lookup, insert, ◌==◌, ◌||◌, if◌then◌else◌,
}
use dev_ops_agent_swarm.Base.Int.{ℤ, pos, ltb_ℤ}
use dev_ops_agent_swarm.Base.Result.{Result, ok}
use dev_ops_agent_swarm.Base.Value.{Value, Fields, end, field, null, int, str, dict, get_or}
use dev_ops_agent_swarm.Diagnoser.Context.{collect_context}
use dev_ops_agent_swarm.Diagnoser.Correlation.{Tables, correlate}
use dev_ops_agent_swarm.Diagnoser.Debate.{resolve}
use dev_ops_agent_swarm.Diagnoser.Hypothesis.{generate_hypothesis}
use dev_ops_agent_swarm.Diagnoser.State.{Diagnoser, D, Outside, session}
use dev_ops_agent_swarm.Messaging.Client.{
  World, done, get_agent, modify, lift, return, attempt, match_result, publish, next_fresh, ◌>>=◌,
  ◌>>◌,
}
use dev_ops_agent_swarm.Messaging.Message.{Message, Fresh, agent_message}
use dev_ops_agent_swarm.Messaging.Subjects.{diagnoser_results}
use dev_ops_agent_swarm.Orchestrator.State.{Incident}

unfoldable pub count_message : D (Unit {0})
count_message = modify λ s. record s { messages_processed = s.messages_processed + 1 }

unfoldable pub count_error : D (Unit {0})
count_error = modify λ s. record s { errors = s.errors + 1 }

-- the row of an incident that has been diagnosed
abbrev pub diagnosed_row : ℕ → Fields → ℤ → Incident → Incident
diagnosed_row now diagnosis confidence inc = record inc {
  diagnosis = some diagnosis;
  diagnosis_confidence = int confidence;
  root_cause_category = get_or "root_cause_category" null diagnosis;
  root_cause_service = get_or "root_cause_service" null diagnosis;
  status = "diagnosing";
  updated_at = now;
}

abbrev pub saved : String → ℕ → Fields → ℤ → Tables → Option Incident → Tables
saved id now diagnosis confidence t none = t
saved id now diagnosis confidence t (some inc) = record t {
  incidents = insert id (diagnosed_row now diagnosis confidence inc) t.incidents;
}

unfoldable pub save_diagnosis : String → ℕ → Fields → ℤ → D (Unit {0})
save_diagnosis id now diagnosis confidence =
    session λ t. ok (tt, saved id now diagnosis confidence t (lookup id t.incidents))

abbrev pub diagnosis_payload : String → Fields → ℤ → Fields
diagnosis_payload incident_id diagnosis confidence =
    field "incident_id" (str incident_id)
      (field "diagnosis" (dict diagnosis) (field "confidence" (int confidence) end))

abbrev pub diagnosed_message : Fresh → String → Fields → Message
diagnosed_message fresh agent_id payload = agent_message fresh agent_id "incident_diagnosed" payload

unfoldable pub publish_diagnosis : String → Fields → ℤ → D (Unit {0})
publish_diagnosis incident_id diagnosis confidence = do
  s ← get_agent
  fresh ← next_fresh
  publish diagnoser_results
      (diagnosed_message fresh s.agent_id (diagnosis_payload incident_id diagnosis confidence))

module _ (o : Outside) where
  -- the call of `generate_hypothesis` of a number: the first one, or that for an alternative
  abbrev pub generated : Fields → ℕ → Result (Fields × ℤ)
  generated context n =
      generate_hypothesis o.to_int o.telemetry.text_of o.backend (o.reply n context) context

  -- a hypothesis below the threshold goes through the debate
  unfoldable pub debated : Fields → Fields → ℤ → Result (Fields × ℤ)
  debated context diagnosis confidence =
      if ltb_ℤ confidence (pos 60)
      then resolve o.rounded o.words o.lower o.mentions (generated context) context diagnosis
          confidence
      else ok (diagnosis, confidence)

  -- steps 2 to 5
  unfoldable pub diagnose : ℕ → Message → Incident → D (Unit {0})
  diagnose now msg inc = do
    context ← lift (collect_context o.telemetry now msg.payload)
    (hypothesis, sureness) ← lift (generated context 0)
    (diagnosis, confidence) ← lift (debated context hypothesis sureness)
    save_diagnosis inc.id now diagnosis confidence
    publish_diagnosis inc.id diagnosis confidence

  -- the body of the `try`
  unfoldable pub process_anomaly : String → ℕ → Message → D (Unit {0})
  process_anomaly id now msg = do
    (inc, created) ← session (correlate o.lower id now msg.payload)
    (if created || inc.status == "detecting" then diagnose now msg inc else return tt)

  unfoldable pub handle_anomaly : String → ℕ → Message → D (Unit {0})
  handle_anomaly id now msg = do
    count_message
    outcome ← attempt (process_anomaly id now msg)
    match_result outcome (λ _. count_error) return

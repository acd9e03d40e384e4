-- ===== src/Observer/State.antt =====
-- The fields that the observers of agents/observer/src share, and how each of them reports an anomaly.
use dev_ops_agent_swarm.Base.{ℕ, ◌+◌, String, Bool, List, [], ◌∷◌, if◌then◌else◌}
use dev_ops_agent_swarm.Base.Value.{Value, Fields}
use dev_ops_agent_swarm.Messaging.Client.{
  M, done, get_agent, modify, return, publish, next_fresh, ◌>>=◌, ◌>>◌,
}
use dev_ops_agent_swarm.Messaging.Message.{agent_message}
use dev_ops_agent_swarm.Messaging.Subjects.{observer_anomalies}
use dev_ops_agent_swarm.Observer.Anomaly.{AnomalyResult, to_dict}
use dev_ops_agent_swarm.Observer.Deduplicator.{Deduplicator, is_duplicate}

-- `own` holds the fields of one kind of observer
pub record Observer (Own : Type 0) : Type 0 where
  pub agent_id : String
  pub messages_processed : ℕ
  pub deduplicator : Deduplicator
  pub own : Own

abbrev pub Obs : Type 0 → Type 0 → Type 0
Obs Own = M (Observer Own)

-- how texts are made of values: the digest of a fingerprint and the text that it is taken of
pub record Texts : Type 0 where
  pub digest : String → String
  pub show : String → Value → String → String

module _ {Own : Type 0} where
  unfoldable pub count_processed : Obs Own (Unit {0})
  count_processed = modify λ s. record s { messages_processed = s.messages_processed + 1 }

  -- a message on the subject of the anomalies
  unfoldable pub publish_message : String → Fields → Obs Own (Unit {0})
  publish_message message_type payload = do
    s ← get_agent
    fresh ← next_fresh
    publish observer_anomalies (agent_message fresh s.agent_id message_type payload)
    count_processed

  unfoldable pub publish_anomaly : AnomalyResult → Obs Own (Unit {0})
  publish_anomaly anomaly = publish_message "anomaly_detected" (to_dict anomaly)

  -- `self.deduplicator.is_duplicate(anomaly)`
  unfoldable pub check_duplicate : Texts → ℕ → AnomalyResult → Obs Own Bool
  check_duplicate t now anomaly w =
      let (deduplicator, duplicate) =
        is_duplicate t.digest t.show now anomaly w.agent.deduplicator in
      done duplicate (record w { agent = record (w.agent) { deduplicator = deduplicator } })

  -- `if not self.deduplicator.is_duplicate(anomaly): await self.publish_anomaly(anomaly)`
  unfoldable pub report : Texts → ℕ → AnomalyResult → Obs Own (Unit {0})
  report t now anomaly = do
    duplicate ← check_duplicate t now anomaly
    (if duplicate then return tt else publish_anomaly anomaly)

  -- the loop over what an evaluation found
  unfoldable pub report_all : Texts → ℕ → List AnomalyResult → Obs Own (Unit {0})
  report_all t now [] = return tt
  report_all t now (a ∷ others) = do report t now a; report_all t now others

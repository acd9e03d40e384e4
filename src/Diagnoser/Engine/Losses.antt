-- ===== src/Diagnoser/Engine/Losses.antt =====
-- Anomalies whose handling fails.
use dev_ops_agent_swarm.Base.{ℕ, ◌+◌, ◌≡◌, refl, String, true, false}
use dev_ops_agent_swarm.Base.Result.{Result, db_error}
use dev_ops_agent_swarm.Diagnoser.Correlation.{Tables, correlate}
use dev_ops_agent_swarm.Diagnoser.Engine.{
  count_message, count_error, process_anomaly, handle_anomaly,
}
use dev_ops_agent_swarm.Diagnoser.State.{Diagnoser, Outside, session, begun}
use dev_ops_agent_swarm.Messaging.Client.{
  World, done, fail, attempt, deliver, acked, effects, match_result, return,
}
use dev_ops_agent_swarm.Messaging.Healthy.{>>=_done, >>=_fail, attempt_fail}
use dev_ops_agent_swarm.Messaging.Message.{Message, is_expired}
use dev_ops_agent_swarm.Orchestrator.State.{refused, later_answers}

-- one more message and one more error
abbrev pub lost : World Diagnoser → World Diagnoser
lost w = record w {
  agent = record (w.agent) {
    messages_processed = w.agent.messages_processed + 1;
    errors = w.agent.errors + 1;
    db_refusals = later_answers w.agent.db_refusals;
  };
}

session_down :
    {A : Type 0} (f : Tables → Result (A × Tables)) (w : World Diagnoser)
    → refused w.agent.db_refusals ≡ true
    → session f w ≡ fail db_error (record w { agent = begun w.agent })
unfolding session
session_down f w down = rw down refl

process_anomaly_down :
    (o : Outside) (id : String) (now : ℕ) (msg : Message) (w : World Diagnoser)
    → refused w.agent.db_refusals ≡ true
    → process_anomaly o id now msg w ≡ fail db_error (record w { agent = begun w.agent })
unfolding process_anomaly
process_anomaly_down o id now msg w down =
    >>=_fail _ _ w (session_down (correlate o.lower id now msg.payload) w down)

abbrev counted : World Diagnoser → World Diagnoser
counted w = record w {
  agent = record (w.agent) { messages_processed = w.agent.messages_processed + 1 };
}

handle_anomaly_down :
    (o : Outside) (id : String) (now : ℕ) (msg : Message) (w : World Diagnoser)
    → refused w.agent.db_refusals ≡ true
    → handle_anomaly o id now msg w ≡ done tt (lost w)
unfolding handle_anomaly count_message count_error effects
handle_anomaly_down o id now msg w down =
    let failed =
      attempt_fail (process_anomaly o id now msg) (counted w)
        (process_anomaly_down o id now msg (counted w) down) in
    >>=_done (attempt (process_anomaly o id now msg))
      (λ outcome. match_result outcome (λ _. count_error) return) (counted w) failed

-- An anomaly that has not expired and that arrives while the database refuses the session is
-- acknowledged: its only traces are the two counters, no row is stored and no message published, and
-- the bus does not deliver it again.
pub deliver-lost :
    (o : Outside) (id : String) (now : ℕ) (msg : Message) (w : World Diagnoser)
    → is_expired now msg ≡ false
    → refused w.agent.db_refusals ≡ true
    → deliver now (handle_anomaly o id now) msg w ≡ (acked, lost w)
unfolding deliver
deliver-lost o id now msg w fresh down = rw (fresh, handle_anomaly_down o id now msg w down) refl

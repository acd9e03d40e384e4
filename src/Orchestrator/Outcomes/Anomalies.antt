-- ===== src/Orchestrator/Outcomes/Anomalies.antt =====
-- Anomalies: a new incident, a repeated message, and a message handled while the bus is down.
use dev_ops_agent_swarm.Base.{
  ℕ, ◌+◌, ◌≡◌, refl, true, false, [], ◌∷◌, ◌++◌, none, some, lookup, insert, lookup-insert_self,
}
use dev_ops_agent_swarm.Base.Result.{runtime_error}
use dev_ops_agent_swarm.Messaging.Client.{
  World, done, fail, effects, deliver, acked, naked, ◌>>=◌, ◌>>◌,
}
use dev_ops_agent_swarm.Messaging.Message.{Message, is_expired}
use dev_ops_agent_swarm.Orchestrator.Agent.{
  handle_anomaly, open_incident, insert_incident, new_incident, new_anomaly, update_incident_status,
  stamped,
}
use dev_ops_agent_swarm.Orchestrator.Fsm.{
  detecting, diagnosing, Fsm, init, of_name, transition, move,
}
use dev_ops_agent_swarm.Orchestrator.Routes.{route_to_diagnoser}
use dev_ops_agent_swarm.Orchestrator.Outcomes.Approvals.{counted}
use dev_ops_agent_swarm.Orchestrator.Outcomes.Healthy.{update_incident_healthy}
use dev_ops_agent_swarm.Orchestrator.State.{
  Incident, Orchestrator, increment_processed, put_fsm, session,
}

-- An anomaly for an incident that the orchestrator tracks changes nothing but the message count.
pub handle_anomaly-tracked :
    (now : ℕ) (msg : Message) (w : World Orchestrator) (f : Fsm)
    → lookup msg.correlation_id w.agent.active_fsms ≡ some f
    → handle_anomaly now msg w ≡ done tt (counted w)
unfolding handle_anomaly effects increment_processed
handle_anomaly-tracked now msg w f found = rw found refl

-- the machine of a new incident, after its first transition
abbrev pub opened_fsm : ℕ → Message → Fsm
opened_fsm now msg = record {
  incident_id = msg.correlation_id;
  state = diagnosing;
  state_entered_at = now;
  retry_count = 0;
  history = record { source = detecting; target = diagnosing; at = now } ∷ [];
}

-- the row of a new incident, after the update of its status
abbrev pub opened_row : ℕ → Message → Incident
opened_row now msg = record (new_incident now msg) { status = "diagnosing" }

abbrev pub opened_fields : ℕ → Message → Orchestrator → Orchestrator
opened_fields now msg s = record s {
  messages_processed = s.messages_processed + 1;
  active_fsms = insert msg.correlation_id (opened_fsm now msg) s.active_fsms;
  incidents =
      insert msg.correlation_id (opened_row now msg)
        (insert msg.correlation_id (new_incident now msg) s.incidents);
  anomalies = s.anomalies ++ new_anomaly now msg ∷ [];
  db_refusals = [];
}

-- the world that a new anomaly leaves if the bus is down when the diagnosis is requested
abbrev pub stranded : ℕ → Message → World Orchestrator → World Orchestrator
stranded now msg w = record {
  agent = opened_fields now msg w.agent;
  bus = record (w.bus) { built = w.bus.built + 1 };
}

insert_incident_healthy :
    (now : ℕ) (msg : Message) (w : World Orchestrator)
    → lookup msg.correlation_id w.agent.incidents ≡ none
    → w.agent.db_refusals ≡ []
    → insert_incident now msg w
      ≡ done tt (record w {
        agent = record (w.agent) {
          incidents = insert msg.correlation_id (new_incident now msg) w.agent.incidents;
          anomalies = w.agent.anomalies ++ new_anomaly now msg ∷ [];
          db_refusals = [];
        };
      })
unfolding insert_incident session
insert_incident_healthy now msg w absent up = rw (up, absent) refl

handle_anomaly_disconnected :
    (now : ℕ) (msg : Message) (w : World Orchestrator)
    → lookup msg.correlation_id w.agent.active_fsms ≡ none
    → lookup msg.correlation_id w.agent.incidents ≡ none
    → w.agent.db_refusals ≡ []
    → w.bus.connected ≡ false
    → handle_anomaly now msg w ≡ fail runtime_error (stranded now msg w)
unfolding handle_anomaly open_incident effects increment_processed put_fsm update_incident_status
    init of_name transition move route_to_diagnoser
handle_anomaly_disconnected now msg w untracked absent up down =
    let w0 = counted w in
    let w1 = record w {
      agent = record (w.agent) {
        messages_processed = w.agent.messages_processed + 1;
        active_fsms = insert msg.correlation_id (opened_fsm now msg) w.agent.active_fsms;
        incidents = insert msg.correlation_id (new_incident now msg) w.agent.incidents;
        anomalies = w.agent.anomalies ++ new_anomaly now msg ∷ [];
        db_refusals = [];
      };
    } in
    let inserted = insert_incident_healthy now msg w0 absent up in
    let updated =
      update_incident_healthy msg.correlation_id (stamped now diagnosing) w1 (new_incident now msg)
        (opened_row now msg) refl (lookup-insert_self msg.correlation_id _ _) refl in
    rw (untracked) (rw (inserted, ◌>>=◌) (rw (updated, ◌>>◌, ◌>>=◌) (rw down refl)))

abbrev pub reconnected : World Orchestrator → World Orchestrator
reconnected w = record w { bus = record (w.bus) { connected = true } }

-- A new anomaly that arrives while the bus is down and the database is up is not acknowledged, but
-- its machine and its row stay. When the bus is back and the message is delivered again, it is
-- acknowledged as a duplicate: no message is published in both deliveries, so no diagnosis is ever
-- requested for the incident, which waits in `diagnosing`.
pub handle_anomaly-stranded :
    (now later : ℕ) (msg : Message) (w : World Orchestrator)
    → is_expired now msg ≡ false
    → is_expired later msg ≡ false
    → lookup msg.correlation_id w.agent.active_fsms ≡ none
    → lookup msg.correlation_id w.agent.incidents ≡ none
    → w.agent.db_refusals ≡ []
    → w.bus.connected ≡ false
    → let (first, w1) = deliver now (handle_anomaly now) msg w in
      let (second, w2) = deliver later (handle_anomaly later) msg (reconnected w1) in
      (first ≡ naked)
      × (second ≡ acked)
      × (w2.bus.outbox ≡ w.bus.outbox)
      × (lookup msg.correlation_id w2.agent.active_fsms ≡ some (opened_fsm now msg))
unfolding deliver
handle_anomaly-stranded now later msg w fresh still untracked absent up down =
    let failed = handle_anomaly_disconnected now msg w untracked absent up down in
    let tracked = lookup-insert_self msg.correlation_id (opened_fsm now msg) w.agent.active_fsms in
    let repeated =
      handle_anomaly-tracked later msg (reconnected (stranded now msg w)) (opened_fsm now msg)
        tracked in
    (
      rw (fresh, failed) refl,
      rw (fresh, failed) (rw (still, repeated) refl),
      rw (fresh, failed) (rw (still, repeated) refl),
      rw (fresh, failed) (rw (still, repeated) tracked),
    )

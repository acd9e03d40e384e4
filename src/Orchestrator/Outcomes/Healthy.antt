-- ===== src/Orchestrator/Outcomes/Healthy.antt =====
-- The parts of a handler where neither the bus nor the database refuses.
use dev_ops_agent_swarm.Base.{◌+◌, ◌≡◌, refl, String, true, [], none, some, lookup, insert}
use dev_ops_agent_swarm.Base.Result.{Result, ok}
use dev_ops_agent_swarm.Base.Value.{Fields, field, str}
use dev_ops_agent_swarm.Messaging.Client.{World, Bus, done, effects, sent}
use dev_ops_agent_swarm.Messaging.Healthy.{publish_healthy}
pub use dev_ops_agent_swarm.Messaging.Healthy.{publish_healthy, >>_done, >>=_done}
use dev_ops_agent_swarm.Messaging.Message.{Draft, build_message}
use dev_ops_agent_swarm.Messaging.Subjects.{incidents_lifecycle}
use dev_ops_agent_swarm.Orchestrator.Agent.{publish_lifecycle}
use dev_ops_agent_swarm.Orchestrator.State.{Incident, Orchestrator, update_incident}

-- The bus and the database refuse nothing.
pub record IsHealthy (w : World Orchestrator) : Type 0 where
  pub connected : w.bus.connected ≡ true
  pub bus_up : w.bus.refusals ≡ []
  pub db_up : w.agent.db_refusals ≡ []

unfoldable pub lifecycle_draft : World Orchestrator → String → String → Fields → Draft
lifecycle_draft w kind id extra = record {
  source_agent = w.agent.agent_id;
  target_agent = "*";
  message_type = kind;
  payload = field "incident_id" (str id) extra;
  correlation_id = some id;
  context = none;
  priority = 1;
  ttl_seconds = 300;
}

-- the bus after a lifecycle event
unfoldable pub announced : World Orchestrator → String → String → Fields → Bus
unfolding lifecycle_draft
announced w kind id extra =
    let b = record (w.bus) { built = w.bus.built + 1 } in
    sent b [] incidents_lifecycle
      (build_message (w.bus.uuids w.bus.built) (lifecycle_draft w kind id extra))

pub publish_lifecycle_healthy :
    (kind id : String) (extra : Fields) (w : World Orchestrator)
    → w.bus.connected ≡ true
    → w.bus.refusals ≡ []
    → publish_lifecycle kind id extra w ≡ done tt (record w { bus = announced w kind id extra })
unfolding publish_lifecycle effects announced
publish_lifecycle_healthy kind id extra w c r = rw (c, r) refl

-- the world after a change of a row
abbrev pub row_changed : World Orchestrator → String → Incident → World Orchestrator
row_changed w id inc = record w {
  agent = record (w.agent) { incidents = insert id inc w.agent.incidents; db_refusals = [] };
}

pub update_incident_healthy :
    (id : String) (f : Incident → Result Incident) (w : World Orchestrator) (inc changed : Incident)
    → w.agent.db_refusals ≡ []
    → lookup id w.agent.incidents ≡ some inc
    → f inc ≡ ok changed
    → update_incident id f w ≡ done tt (row_changed w id changed)
unfolding update_incident
update_incident_healthy id f w inc changed d row e = rw (d, row, e) refl

-- ===== src/Tests/BaseAgent.antt =====
-- Witnesses for the base agent.
use dev_ops_agent_swarm.Base.{ℕ, true, false, ◌≡◌, refl, [], ◌∷◌, Dict, In, arith}
use dev_ops_agent_swarm.Base.Int.{pos}
use dev_ops_agent_swarm.Base.Result.{value_error}
use dev_ops_agent_swarm.Base.Value.{int}
use dev_ops_agent_swarm.BaseAgent.{Agent, publish_heartbeat, run_rounds, stop, start}
use dev_ops_agent_swarm.BaseAgent.Registered.{heartbeat, beaten, registered, heartbeat-available}
use dev_ops_agent_swarm.BaseAgent.Rounds.{Loop, Stops, online, begun, start-teardown}
use dev_ops_agent_swarm.Messaging.Client.{World, done, fail, in_time, close, return, effects, ◌>>◌}
use dev_ops_agent_swarm.Messaging.Message.{Fresh}
use dev_ops_agent_swarm.Orchestrator.Handlers.{handle_heartbeat}
use dev_ops_agent_swarm.Orchestrator.Router.{get_available_agents}
use dev_ops_agent_swarm.Orchestrator.State.{AgentInfo, Orchestrator}

abbrev uuid_of : ℕ → Fresh
uuid_of k = record { message_uuid = "m"; correlation_uuid = "c"; trace_uuid = "t"; created = k }

abbrev learner : Agent Unit
learner = record {
  agent_id = "agents.learner.h";
  agent_type = "agents.learner";
  hostname = "h";
  heartbeat_interval = 30;
  start_time = 0;
  running = true;
  messages_processed = 0;
  errors = 0;
  own = tt;
}

abbrev learner_world : World (Agent Unit)
learner_world = record {
  agent = learner;
  bus = record { connected = true; refusals = []; uuids = uuid_of; built = 0; outbox = [] };
}

-- a call of `run_loop` that raises
abbrev broken : Loop Unit
broken w = fail value_error w

stop-Stops : Stops {Own = Unit} stop
unfolding stop effects
stop-Stops w = refl

start-teardown_example :
    (u : World (Agent Unit)) × (run_rounds (broken ∷ stop ∷ []) (begun (online learner_world))
      ≡ done true u)
    × (u.agent.running ≡ false)
    × (start in_time (return tt) (broken ∷ stop ∷ broken ∷ []) (return tt) learner_world
        ≡ (return tt >> close) u)
unfolding return
start-teardown_example =
    start-teardown (return tt) (return tt) (broken ∷ []) stop (broken ∷ []) learner_world refl
      stop-Stops

abbrev orchestrator_world : World Orchestrator
orchestrator_world = record {
  agent = record {
    agent_id = "o";
    messages_processed = 0;
    registry = [];
    active_fsms = [];
    incidents = [];
    anomalies = [];
    db_refusals = [];
  };
  bus = learner_world.bus;
}

heartbeat-available_example :
    (publish_heartbeat (λ k. int (pos k)) (λ k. "t") 5 learner_world
      ≡ done tt (beaten (λ k. int (pos k)) (λ k. "t") 5 learner_world))
    × (r : Dict AgentInfo) × (handle_heartbeat 7
          (heartbeat (λ k. int (pos k)) (λ k. "t") 5 learner_world)
          orchestrator_world
        ≡ done tt (record orchestrator_world {
          agent = record (orchestrator_world.agent) { registry = r };
        }))
    × In
        (registered (λ k. int (pos k)) (λ k. "t") 5 7 learner_world)
        (get_available_agents 8 "agents.learner" r)
heartbeat-available_example =
    heartbeat-available (λ k. int (pos k)) (λ k. "t") 5 7 8 learner_world orchestrator_world refl
      refl (omega arith)

-- ===== src/BaseAgent/Registered.antt =====
-- What the orchestrator makes of a heartbeat.
use dev_ops_agent_swarm.Base.{
  ℕ, ◌+◌, ◌*◌, ◌≤◌, ◌≡◌, refl, ◌∙◌, String, true, [], ◌∷◌, Dict, insert, In, In-filter, inl, inr,
  arith, ◌==◌, eq_iff, Bool-cases,
}
use dev_ops_agent_swarm.Base.Value.{Value, get}
use dev_ops_agent_swarm.BaseAgent.{Agent, heartbeat_payload, heartbeat_draft, publish_heartbeat}
use dev_ops_agent_swarm.Messaging.Client.{
  World, done, get_agent, build, publish, sent, modify, lift, ◌>>=◌,
}
use dev_ops_agent_swarm.Messaging.Healthy.{>>=_done, publish_healthy}
use dev_ops_agent_swarm.Messaging.Message.{Message, second, build_message}
use dev_ops_agent_swarm.Messaging.Subjects.{agent_heartbeat}
use dev_ops_agent_swarm.Orchestrator.Handlers.{handle_heartbeat}
use dev_ops_agent_swarm.Orchestrator.Router.{
  info_of, infos, update_agent_status, get_available_agents, heartbeat_timeout_seconds,
}
use dev_ops_agent_swarm.Orchestrator.State.{AgentInfo, Orchestrator}

infos-insert :
    (k : String) (info : AgentInfo) (r : Dict AgentInfo) → In info (infos (insert k info r))
unfolding insert
infos-insert k info [] = inl refl
infos-insert k info ((j, old) ∷ r) = elim (Bool-cases (j == k)) [
  | inl same ↦ rw same (inl refl)
  | inr other ↦ rw other (inr (infos-insert k info r))
]

module _ {Own : Type 0} (number : ℕ → Value) (isoformat : ℕ → String) where
  -- the message of a heartbeat
  abbrev pub heartbeat : ℕ → World (Agent Own) → Message
  heartbeat now w =
      build_message (w.bus.uuids w.bus.built) (heartbeat_draft number isoformat now w.agent)

  -- the bus after it was published
  abbrev pub beaten : ℕ → World (Agent Own) → World (Agent Own)
  beaten now w = record w {
    bus = sent (record (w.bus) { built = w.bus.built + 1 }) [] agent_heartbeat (heartbeat now w);
  }

  -- what is registered of the agent
  abbrev pub registered : ℕ → ℕ → World (Agent Own) → AgentInfo
  registered now at w = info_of at w.agent.agent_id (heartbeat_payload number isoformat now w.agent)

  heartbeat-published :
      (now : ℕ) (w : World (Agent Own))
      → w.bus.connected ≡ true
      → w.bus.refusals ≡ []
      → publish_heartbeat number isoformat now w ≡ done tt (beaten now w)
  unfolding publish_heartbeat get_agent build
  heartbeat-published now w up well =
      let msg = heartbeat now w in
      let v : World (Agent Own) = record w { bus = record (w.bus) { built = w.bus.built + 1 } } in
      >>=_done get_agent
        (λ s. build (heartbeat_draft number isoformat now s) >>= publish agent_heartbeat) w refl
      ∙ (>>=_done (build (heartbeat_draft number isoformat now w.agent)) (publish agent_heartbeat) w
            refl
          ∙ publish_healthy agent_heartbeat msg v up well)

  module _ (now at : ℕ) (w : World (Agent Own)) where
    handle_heartbeat-registered :
        (o : World Orchestrator)
        → handle_heartbeat at (heartbeat now w) o
          ≡ done tt (record o {
            agent = record (o.agent) {
              registry = insert w.agent.agent_id (registered now at w) o.agent.registry;
            };
          })
    unfolding handle_heartbeat update_agent_status build_message get get_agent lift modify ◌>>=◌
    handle_heartbeat-registered o = refl

    registered-available :
        (later : ℕ) (r : Dict AgentInfo)
        → later ≤ at + heartbeat_timeout_seconds * second
        → In (registered now at w) (
            get_available_agents later w.agent.agent_type
              (insert w.agent.agent_id (registered now at w) r))
    unfolding get_available_agents info_of get
    registered-available later r soon =
        In-filter _ (registered now at w) (infos (insert w.agent.agent_id (registered now at w) r))
          (infos-insert w.agent.agent_id (registered now at w) r)
          (ground (arith, eq_iff w.agent.agent_type w.agent.agent_type))

  -- With a bus that is connected and refuses nothing: an agent's heartbeat is published, and the
  -- orchestrator that handles its message at the time `at`, whatever it has registered, returns
  -- with a registry in which the agent is available, under its own type, until 90 seconds later.
  pub heartbeat-available :
      (now at later : ℕ) (w : World (Agent Own)) (o : World Orchestrator)
      → w.bus.connected ≡ true
      → w.bus.refusals ≡ []
      → later ≤ at + heartbeat_timeout_seconds * second
      → (publish_heartbeat number isoformat now w ≡ done tt (beaten now w))
        × (r : Dict AgentInfo) × (handle_heartbeat at (heartbeat now w) o
            ≡ done tt (record o { agent = record (o.agent) { registry = r } }))
        × In (registered now at w) (get_available_agents later w.agent.agent_type r)
  heartbeat-available now at later w o up well soon = (
    heartbeat-published now w up well,
    insert w.agent.agent_id (registered now at w) o.agent.registry,
    handle_heartbeat-registered now at w o,
    registered-available now at w later o.agent.registry soon,
  )

-- ===== src/Messaging/Delivery.antt =====
-- An invariant of the agent's fields over everything that is delivered to its handlers.
use dev_ops_agent_swarm.Base.{ℕ, List, [], ◌∷◌, Bool-cases, inl, inr}
use dev_ops_agent_swarm.Messaging.Client.{World, M, Step, done, fail, world, deliver, answered}
use dev_ops_agent_swarm.Messaging.Keeps.{Keeps}
use dev_ops_agent_swarm.Messaging.Message.{Message, is_expired}

module _ {S : Type 0} where
  -- deliveries one after the other, each of a message to a handler at a time
  abbrev pub deliver_all : List (ℕ × (Message → M S (Unit {0})) × Message) → World S → World S
  deliver_all [] w = w
  deliver_all ((now, h, msg) ∷ rest) w = deliver_all rest (deliver now h msg w).1

  pub deliver-Keeps :
      {P : S → Type 0} (now : ℕ) (h : Message → M S (Unit {0})) (msg : Message) (w : World S)
      → Keeps P (h msg)
      → P w.agent
      → P (deliver now h msg w).1.agent
  unfolding deliver
  deliver-Keeps {P} now h msg w k v = elim (Bool-cases (is_expired now msg)) [
    | inl late ↦ rw late v
    | inr fresh ↦ rw fresh (after (h msg w) (k.keeps w v))
  ]
    where
      after : (r : Step S (Unit {0})) → P (world r).agent → P (answered r).1.agent
      after (done _ w') h = h
      after (fail _ w') h = h

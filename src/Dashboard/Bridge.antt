-- ===== src/Dashboard/Bridge.antt =====
-- The bridge from NATS to the websockets, and the websocket's endpoint
-- (dashboard/api/websocket/handlers.py).
pub mod Unheard
use dev_ops_agent_swarm.Base.{
  ℕ, String, Bool, List, [], ◌∷◌, Option, none, some, ◌==◌, if◌then◌else◌,
}
use dev_ops_agent_swarm.Base.Value.{Fields, end, field, str, get_or, set}
use dev_ops_agent_swarm.Dashboard.Connections.{Manager, connect, disconnect, broadcast}
use dev_ops_agent_swarm.Messaging.Message.{Message}
use dev_ops_agent_swarm.Messaging.Subjects.{agent_heartbeat, human_approvals, incidents_lifecycle}

-- what is sent to the clients
pub record Event : Type 0 where
  pub event_type : String
  pub payload : Fields

abbrev pub event : String → Fields → Event
event event_type payload = record { event_type = event_type; payload = payload }

-- `EVENT_MAP.get(message_type, "incident.updated")`
unfoldable pub mapped_event : String → String
mapped_event t =
    if t == "incident.created"
    then "incident.created"
    else if t == "incident.resolved"
    then "incident.resolved"
    else if t == "heartbeat"
    then "agent.heartbeat"
    else if t == "escalation"
    then "approval.requested"
    else if t == "human_approval_response"
    then "approval.resolved"
    else "incident.updated"

-- `{…, **payload}`
unfoldable pub merged : Fields → Fields → Fields
merged base end = base
merged base (field k v payload) = merged (set k v base) payload

unfoldable pub lifecycle_event : Message → Event
lifecycle_event msg = event (mapped_event msg.message_type) (
    merged
      (field "incident_id" (get_or "incident_id" (str msg.correlation_id) msg.payload)
        (field "message_type" (str msg.message_type) end))
      msg.payload)

unfoldable pub heartbeat_event : Message → Event
heartbeat_event msg = event "agent.heartbeat" msg.payload

unfoldable pub approval_event : Message → Event
approval_event msg =
    event
      (if msg.message_type == "human_approval_response"
        then "approval.resolved"
        else "approval.requested")
      (merged (field "incident_id" (str msg.correlation_id) end) msg.payload)

-- the event of a message on one of the three subscribed subjects
unfoldable pub bridged : String → Message → Option Event
bridged subject msg =
    if subject == incidents_lifecycle
    then some (lifecycle_event msg)
    else if subject == agent_heartbeat
    then some (heartbeat_event msg)
    else if subject == human_approvals
    then some (approval_event msg)
    else none

abbrev pub broadcast_event : (ℕ → Bool) → Manager → Option Event → List (ℕ × Event) × Manager
broadcast_event up m none = ([], m)
broadcast_event up m (some e) =
    let (receivers, after) = broadcast up m in (received receivers, after)
  where
    received : List ℕ → List (ℕ × Event)
    received [] = []
    received (c ∷ cs) = (c, e) ∷ received cs

-- who receives what for a message on a subject
unfoldable pub on_message : (ℕ → Bool) → String → Message → Manager → List (ℕ × Event) × Manager
on_message up subject msg m = broadcast_event up m (bridged subject msg)

-- the answers to what a client sends until it disconnects
unfoldable pub pongs : List String → List String
pongs [] = []
pongs (text ∷ texts) = let later = pongs texts in if text == "ping" then "pong" ∷ later else later

-- `websocket_handler`: the managers while the client is connected and afterwards, and the answers
unfoldable pub websocket_handler : ℕ → List String → Manager → Manager × List String × Manager
websocket_handler websocket texts m =
    let during = connect websocket m in (during, pongs texts, disconnect websocket during)

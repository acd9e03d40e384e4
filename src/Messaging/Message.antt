-- ===== src/Messaging/Message.antt =====
-- `AgentMessage` (shared/messaging/schema.py) and `build_message`
-- (shared/messaging/nats_client.py). A time is a number of microseconds since the epoch.
use dev_ops_agent_swarm.Base.{
  ℕ, ◌+◌, ◌*◌, String, Bool, List, any, Option, none, some, ltb, ◌==◌, ◌&&◌, if◌then◌else◌,
}
use dev_ops_agent_swarm.Base.Result.{Result, ok, raise, name_error}
use dev_ops_agent_swarm.Base.Value.{Fields, end}

-- microseconds in a second
abbrev pub second : ℕ
second = 1000000

-- `datetime.now(timezone.utc)` at a time, in a module with these imported names among its own: a name
-- that is not there raises `NameError`.
unfoldable pub utc_now : List String → ℕ → Result ℕ
utc_now names now =
    if any (λ n. n == "datetime") names && any (λ n. n == "timezone") names
    then ok now
    else raise name_error

pub record Message : Type 0 where
  pub message_id : String
  pub correlation_id : String
  pub trace_id : String
  pub source_agent : String
  pub target_agent : String
  pub message_type : String
  pub priority : ℕ
  pub ttl_seconds : ℕ
  pub timestamp : ℕ
  pub retry_count : ℕ
  pub payload : Fields
  pub context : Fields

-- what the `default_factory` of the four generated fields returns: `uuid4` three times, and now
pub record Fresh : Type 0 where
  pub message_uuid : String
  pub correlation_uuid : String
  pub trace_uuid : String
  pub created : ℕ

unfoldable pub is_expired : ℕ → Message → Bool
is_expired now m = ltb (m.timestamp + m.ttl_seconds * second) now

-- the keyword arguments of `build_message`
pub record Draft : Type 0 where
  pub source_agent : String
  pub target_agent : String
  pub message_type : String
  pub payload : Fields
  pub correlation_id : Option String
  pub context : Option Fields
  pub priority : ℕ
  pub ttl_seconds : ℕ

-- `if correlation_id: msg.correlation_id = correlation_id`
abbrev pub correlation : Option String → String → String
correlation none generated = generated
correlation (some given) generated = if given == "" then generated else given

-- `context or {}`
abbrev pub context_or : Option Fields → Fields
context_or none = end
context_or (some c) = c

unfoldable pub build_message : Fresh → Draft → Message
build_message fresh d = record {
  message_id = fresh.message_uuid;
  correlation_id = correlation d.correlation_id fresh.correlation_uuid;
  trace_id = fresh.trace_uuid;
  source_agent = d.source_agent;
  target_agent = d.target_agent;
  message_type = d.message_type;
  priority = d.priority;
  ttl_seconds = d.ttl_seconds;
  timestamp = fresh.created;
  retry_count = 0;
  payload = d.payload;
  context = context_or d.context;
}

-- `AgentMessage(source_agent=…, message_type=…, payload=…)`, with the defaults of the other fields
abbrev pub agent_message : Fresh → String → String → Fields → Message
agent_message fresh source_agent message_type payload = record {
  message_id = fresh.message_uuid;
  correlation_id = fresh.correlation_uuid;
  trace_id = fresh.trace_uuid;
  source_agent = source_agent;
  target_agent = "";
  message_type = message_type;
  priority = 2;
  ttl_seconds = 300;
  timestamp = fresh.created;
  retry_count = 0;
  payload = payload;
  context = end;
}

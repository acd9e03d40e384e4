-- ===== src/Messaging/Wire.antt =====
-- `AgentMessage.to_dict` and `from_dict` (shared/messaging/schema.py). The class does not check the
-- types of its fields: what comes from the wire may be any JSON value. `isoformat` and
-- `fromisoformat` are those of Python's `datetime`.
pub mod RoundTrip
use dev_ops_agent_swarm.Base.{ℕ, String, Bool, true, false, if◌then◌else◌}
use dev_ops_agent_swarm.Base.Int.{pos}
use dev_ops_agent_swarm.Base.Result.{Result, ok, ◌>>=◌}
use dev_ops_agent_swarm.Base.Value.{
  Value, Fields, end, field, null, int, str, formatted, dict, get_or,
}
use dev_ops_agent_swarm.Messaging.Message.{Message, Fresh}

-- an `AgentMessage` as the code holds it after `from_dict`
pub record Envelope : Type 0 where
  pub message_id : Value
  pub correlation_id : Value
  pub trace_id : Value
  pub source_agent : Value
  pub target_agent : Value
  pub message_type : Value
  pub priority : Value
  pub ttl_seconds : Value
  pub timestamp : ℕ
  pub retry_count : Value
  pub payload : Value
  pub context : Value

-- a message that an agent has built
abbrev pub envelope : Message → Envelope
envelope m = record {
  message_id = str m.message_id;
  correlation_id = str m.correlation_id;
  trace_id = str m.trace_id;
  source_agent = str m.source_agent;
  target_agent = str m.target_agent;
  message_type = str m.message_type;
  priority = int (pos m.priority);
  ttl_seconds = int (pos m.ttl_seconds);
  timestamp = m.timestamp;
  retry_count = int (pos m.retry_count);
  payload = dict m.payload;
  context = dict m.context;
}

-- `isinstance(ts, str)`
abbrev pub is_str : Value → Bool
is_str (str _) = true
is_str (formatted _) = true
is_str _ = false

module _ (isoformat : ℕ → Value) (fromisoformat : Value → Result ℕ) where
  unfoldable pub to_dict : Envelope → Fields
  to_dict e = field "message_id" e.message_id (
      field "correlation_id" e.correlation_id (
        field "trace_id" e.trace_id (
          field "source_agent" e.source_agent (
            field "target_agent" e.target_agent (
              field "message_type" e.message_type (
                field "priority" e.priority (
                  field "ttl_seconds" e.ttl_seconds (
                    field "timestamp" (isoformat e.timestamp) (
                      field "retry_count" e.retry_count
                        (field "payload" e.payload (field "context" e.context end)))))))))))

  -- the instant that `timestamp` names, or now
  abbrev pub instant : ℕ → Value → Result ℕ
  instant now ts = if is_str ts then fromisoformat ts else ok now

  -- `fresh` holds the UUIDs and the time that the defaults draw
  unfoldable pub from_dict : Fresh → Fields → Result Envelope
  from_dict fresh d = do
    timestamp ← instant fresh.created (get_or "timestamp" null d)
    ok (record {
      message_id = get_or "message_id" (str fresh.message_uuid) d;
      correlation_id = get_or "correlation_id" (str fresh.correlation_uuid) d;
      trace_id = get_or "trace_id" (str fresh.trace_uuid) d;
      source_agent = get_or "source_agent" (str "") d;
      target_agent = get_or "target_agent" (str "") d;
      message_type = get_or "message_type" (str "") d;
      priority = get_or "priority" (int (pos 2)) d;
      ttl_seconds = get_or "ttl_seconds" (int (pos 300)) d;
      timestamp = timestamp;
      retry_count = get_or "retry_count" (int (pos 0)) d;
      payload = get_or "payload" (dict end) d;
      context = get_or "context" (dict end) d;
    })

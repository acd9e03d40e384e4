-- ===== src/Tests/Messaging.antt =====
-- Witnesses for the wire format.
use dev_ops_agent_swarm.Base.{ℕ, ◌≡◌, refl, true}
use dev_ops_agent_swarm.Base.Int.{pos}
use dev_ops_agent_swarm.Base.Result.{Result, ok, raise, value_error}
use dev_ops_agent_swarm.Base.Value.{Value, nil, cons, end, str, int, formatted, dict, null}
use dev_ops_agent_swarm.Messaging.Message.{Fresh}
use dev_ops_agent_swarm.Messaging.Wire.{Envelope, is_str, to_dict, from_dict}
use dev_ops_agent_swarm.Messaging.Wire.RoundTrip.{from_dict-to_dict}

-- a text whose one part is the number of microseconds
abbrev iso : ℕ → Value
iso t = formatted (cons (int (pos t)) nil)

abbrev from_iso : Value → Result ℕ
from_iso (formatted (cons (int (pos t)) nil)) = ok t
from_iso v = raise value_error

iso_reads : (t : ℕ) → (is_str (iso t) ≡ true) × (from_iso (iso t) ≡ ok t)
iso_reads t = (refl, refl)

abbrev fresh : Fresh
fresh = record { message_uuid = "m"; correlation_uuid = "c"; trace_uuid = "t"; created = 3 }

abbrev sample : Envelope
sample = record {
  message_id = str "id";
  correlation_id = null;
  trace_id = str "trace";
  source_agent = str "dashboard";
  target_agent = str "orchestrator";
  message_type = str "human_approval_response";
  priority = int (pos 0);
  ttl_seconds = int (pos 60);
  timestamp = 12;
  retry_count = int (pos 1);
  payload = dict end;
  context = dict end;
}

from_dict-to_dict_example : from_dict iso from_iso fresh (to_dict iso from_iso sample) ≡ ok sample
from_dict-to_dict_example = from_dict-to_dict iso from_iso iso_reads fresh sample

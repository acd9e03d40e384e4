-- ===== src/Tests/Safety.antt =====
-- Witnesses for the safety agent.
use dev_ops_agent_swarm.Base.{ℕ, ◌≡◌, ◌*◌, refl, String, true, false, inl, inr, List, [], ◌∷◌, All}
use dev_ops_agent_swarm.Base.Int.{ℤ}
use dev_ops_agent_swarm.Base.Result.{Result, ok, raise, value_error, name_error}
use dev_ops_agent_swarm.Base.Value.{
  Value, Fields, str, dict, end, field, get, set, as_dict, get_or, truthy,
}
use dev_ops_agent_swarm.Messaging.Client.{World, deliver, naked}
use dev_ops_agent_swarm.Messaging.Message.{Message, second, is_expired}
use dev_ops_agent_swarm.Safety.Handler.Service.{serve_all, serve_all-IsPaced}
use dev_ops_agent_swarm.Safety.Handler.Silent.{handler, refused, timed, serve_all_silent}
use dev_ops_agent_swarm.Safety.Agent.{in_context}
use dev_ops_agent_swarm.Safety.Agent.Core.{restart, IsUnnoticed, evaluate-in_context}
use dev_ops_agent_swarm.Safety.BlastRadius.{Blast, high}
use dev_ops_agent_swarm.Safety.Policy.{refusal, evaluate, banned_targets, scale_rule, passed}
use dev_ops_agent_swarm.Safety.Policy.Rules.{IsPermitted, evaluate-approved}
use dev_ops_agent_swarm.Safety.RateLimiter.{Limiter, init}
use dev_ops_agent_swarm.Safety.RateLimiter.Spacing.{IsPaced, init-IsPaced}

abbrev digest : String → String
digest s = s

abbrev shown : Value → Value → String
shown kind (str s) = s
shown kind v = ""

abbrev no_int : Value → Result ℤ
no_int v = raise value_error

abbrev callers : String → List String
callers s = "auth-svc" ∷ []

restart_ruling : evaluate no_int (restart "redis") ≡ ok passed
unfolding evaluate get banned_targets scale_rule
restart_ruling = refl

evaluate-approved_example :
    (truthy (dict (restart "redis")) ≡ true)
    × ((params : Fields) × (as_dict (get_or "params" (dict end) (restart "redis")) ≡ ok params)
        × IsPermitted no_int (restart "redis") params)
evaluate-approved_example = evaluate-approved no_int (restart "redis") restart_ruling refl

abbrev request : Message
request = record {
  message_id = "m";
  correlation_id = "i";
  trace_id = "t";
  source_agent = "agents.remediator";
  target_agent = "agents.safety";
  message_type = "safety_review_request";
  priority = 1;
  ttl_seconds = 300;
  timestamp = 0;
  retry_count = 0;
  payload = field "diagnosis" (dict end) (field "action" (dict (restart "redis")) end);
  context = end;
}

abbrev reviewing : World Limiter
reviewing = record {
  agent = init;
  bus = record {
    connected = true;
    refusals = [];
    uuids =
        λ n. record { message_uuid = "m"; correlation_uuid = "c"; trace_uuid = "t"; created = 0 };
    built = 0;
    outbox = [];
  };
}

serve_all-IsPaced_example :
    IsPaced
      (serve_all digest shown no_int callers
        ((7, ok 7, request) ∷ (8, raise name_error, request) ∷ [])
        reviewing).agent
serve_all-IsPaced_example =
    serve_all-IsPaced digest shown no_int callers
      ((7, ok 7, request) ∷ (8, raise name_error, request) ∷ []) reviewing init-IsPaced

-- a delivery in time, and one that comes too late
abbrev requests : List (ℕ × Message)
requests = (7, request) ∷ (400 * second, request) ∷ []

serve_all_silent_example :
    All
      (λ r.
        deliver r.0 (handler digest shown no_int callers r.0) r.1 reviewing
        ≡ (refused digest shown no_int callers r.0 r.1, reviewing))
      requests
    × (serve_all digest shown no_int callers (timed requests) reviewing ≡ reviewing)
serve_all_silent_example = serve_all_silent digest shown no_int callers requests reviewing

first_refused : refused digest shown no_int callers 7 request ≡ naked
unfolding is_expired
first_refused = refl

abbrev wide : Blast
wide = record {
  risk_level = high;
  affected_services = [];
  impact = 9;
  total = 15;
  reason = str "Action affects 9 upstream services.";
}

wide_ruling :
    evaluate no_int (in_context (restart "order-svc") wide)
    ≡ ok (refusal (str "High-risk actions require human approval"))
unfolding evaluate get in_context set banned_targets scale_rule
wide_ruling = refl

evaluate-in_context_example : (false ≡ false) × IsUnnoticed no_int callers "redis"
evaluate-in_context_example =
    evaluate-in_context no_int callers (restart "order-svc") wide "redis" refl wide_ruling
      (inr (inr (inl refl)))

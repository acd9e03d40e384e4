-- ===== src/Safety/Handler.antt =====
-- `SafetyAgent._handle_review_request` and `_publish_decision` (agents/safety/src/main.py). The
-- agent's field that changes is its rate limiter.
pub mod Service
pub mod Silent
use dev_ops_agent_swarm.Base.{ℕ, String, List, Option}
use dev_ops_agent_swarm.Base.Int.{ℤ}
use dev_ops_agent_swarm.Base.Result.{Result, ok, raise}
use dev_ops_agent_swarm.Base.Value.{Value, Fields, end, dict, get_or, as_dict}
use dev_ops_agent_swarm.Messaging.Client.{M, World, Step, done, fail, lift, publish, ◌>>=◌, ◌>>◌}
use dev_ops_agent_swarm.Messaging.Message.{Message}
use dev_ops_agent_swarm.Messaging.Subjects.{safety_decisions}
use dev_ops_agent_swarm.Safety.Agent.{evaluate_action}
use dev_ops_agent_swarm.Safety.BlastRadius.{Blast, calculate}
use dev_ops_agent_swarm.Safety.RateLimiter.{Limiter, Verdict, check_by}

-- the message of `_publish_decision`: it carries the request's identifiers
unfoldable pub decision_message : ℕ → Message → Fields → Message
decision_message now request decision = record {
  message_id = request.message_id;
  correlation_id = request.correlation_id;
  trace_id = request.trace_id;
  source_agent = "agents.safety";
  target_agent = request.source_agent;
  message_type = "safety_decision";
  priority = request.priority;
  ttl_seconds = 300;
  timestamp = now;
  retry_count = 0;
  payload = decision;
  context = request.context;
}

unfoldable pub publish_decision : ℕ → Message → Fields → M Limiter (Unit {0})
publish_decision now request decision =
    publish safety_decisions (decision_message now request decision)

-- the limiter where a check has returned, or not
abbrev pub checked : Limiter → Result (Limiter × Verdict) → Limiter
checked l (ok (l', _)) = l'
checked l (raise _) = l

module _ (sha256 : String → String) (show : Value → Value → String) (to_int : Value → Result ℤ)
    (ancestors : String → List String) (clock : Result ℕ) where
  -- the limiter that an evaluation leaves which raises: pruned, if it came to the check
  abbrev pub left_by_failure : Fields → Limiter → Result Blast → Limiter
  left_by_failure action l (ok _) = checked l (check_by sha256 show clock action l)
  left_by_failure action l (raise _) = l

  -- how an evaluation ends
  abbrev pub concluded : World Limiter → Fields → Result (Limiter × Fields) → Step Limiter Fields
  concluded w action (ok (l', decision)) = done decision (record w { agent = l' })
  concluded w action (raise e) =
      fail e (record w { agent = left_by_failure action w.agent (calculate ancestors action) })

  -- `await self._evaluate_action(…)`
  unfoldable pub evaluated : Message → Value → Fields → M Limiter Fields
  evaluated request diagnosis action w = concluded w action (
      evaluate_action sha256 show to_int ancestors clock request.correlation_id diagnosis action
        w.agent)

  -- an `action` that is no `dict` has no `.get`; `now` is the decision's timestamp
  unfoldable pub handle_review_request : ℕ → Message → M Limiter (Unit {0})
  handle_review_request now request = do
    action ← lift (as_dict (get_or "action" (dict end) request.payload))
    decision ← evaluated request (get_or "diagnosis" (dict end) request.payload) action
    publish_decision now request decision

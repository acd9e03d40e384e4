-- ===== src/Remediator/Agent.antt =====
-- The handlers of `RemediatorAgent` (agents/remediator/src/main.py). The value of
-- `datetime.now(timezone.utc)` is an argument that may be an exception: the module does not import
-- `timezone`, so there the expression raises `NameError`.
pub mod Silence
pub mod Gate
pub mod Publishing
pub mod Unfinished
use dev_ops_agent_swarm.Base.{
  ℕ, ◌+◌, String, Bool, true, false, List, [], ◌∷◌, Option, none, some, insert, lookup, remove,
  if◌then◌else◌,
}
use dev_ops_agent_swarm.Base.Iteration.{first_of}
use dev_ops_agent_swarm.Base.Result.{Result, ok, raise, key_error, type_error}
use dev_ops_agent_swarm.Base.Value.{
  Value, Items, nil, cons, Fields, end, field, null, int, str, list, dict, get, get_or, as_dict,
  is_text, truthy,
}
use dev_ops_agent_swarm.Base.Text.{characters}
use dev_ops_agent_swarm.Messaging.Client.{
  done, get_agent, modify, lift, return, match_option, publish, ◌>>=◌, ◌>>◌,
}
use dev_ops_agent_swarm.Messaging.Message.{Message, utc_now}
use dev_ops_agent_swarm.Messaging.Subjects.{safety_reviews, remediator_executions}
use dev_ops_agent_swarm.Remediator.Executor.{Answer, execute, rollback}
use dev_ops_agent_swarm.Remediator.Runbooks.{find_match, render_action}
use dev_ops_agent_swarm.Remediator.State.{Remediator, Remediation, R, Outside}
use dev_ops_agent_swarm.Remediator.Verification.{verify}

-- `str(uuid.uuid4())`
unfoldable pub uuid4 : R String
uuid4 w =
    done (w.bus.uuids w.bus.built).message_uuid
      (record w { bus = record (w.bus) { built = w.bus.built + 1 } })

-- the fields that a proposal and a completion share: those of the message that caused them
abbrev pub reply : Message → String → ℕ → String → String → Fields → Message
reply request message_id now target kind payload = record {
  message_id = message_id;
  correlation_id = request.correlation_id;
  trace_id = request.trace_id;
  source_agent = "agents.remediator";
  target_agent = target;
  message_type = kind;
  priority = request.priority;
  ttl_seconds = 300;
  timestamp = now;
  retry_count = 0;
  payload = payload;
  context = request.context;
}

abbrev pub proposal : Message → String → ℕ → Fields → Fields → Message
proposal request message_id now diagnosis action =
    reply request message_id now "agents.safety" "safety_review_request"
      (field "diagnosis" (dict diagnosis) (field "action" (dict action) end))

abbrev pub completion : Message → String → ℕ → Remediation → String → Value → Message
completion request message_id now state result details =
    reply request message_id now "agents.orchestrator" "remediation_execution" (
      field "action_type" (get_or "type" null state.action)
        (field "status" (str result) (field "details" details end)))

-- `self.active_remediations[cid] = …` and `del self.active_remediations[cid]`
unfoldable pub remember : String → Remediation → R (Unit {0})
remember cid state =
    modify λ s. record s { active_remediations = insert cid state s.active_remediations }

unfoldable pub forget : String → R (Unit {0})
forget cid = modify λ s. record s { active_remediations = remove cid s.active_remediations }

-- `state['action']['type']`, which a log line reads
abbrev pub typed : Option Value → Result Value
typed none = raise key_error
typed (some v) = ok v

-- `from datetime import datetime`
abbrev pub imported : List String
imported = "datetime" ∷ []

module _ (o : Outside) (clock : Result ℕ) where
  unfoldable pub propose_action : Message → Fields → Fields → R (Unit {0})
  propose_action request diagnosis action = do
    message_id ← uuid4
    now ← lift clock
    publish safety_reviews (proposal request message_id now diagnosis action)

  -- the first action of a runbook that was found
  unfoldable pub remediate : Message → Fields → R (Unit {0})
  remediate request runbook =
      if truthy (get_or "actions" (list nil) runbook)
      then (do
        raw_action ← lift (first_of (get_or "actions" (list nil) runbook))
        action ← lift (render_action raw_action request.payload)
        remember request.correlation_id
            (record { diagnosis = request.payload; runbook = runbook; action = action })
        propose_action request request.payload action)
      else return tt

  -- `_handle_diagnosis`; the payload is the diagnosis
  unfoldable pub handle_diagnosis : Message → R (Unit {0})
  handle_diagnosis request = do
    s ← get_agent
    found ← lift (find_match s.runbooks request.payload)
    match_option found (return tt) (remediate request)

  -- the rest of `_publish_completion` for what `datetime.now(timezone.utc)` gives
  unfoldable pub publish_completion_by : Message → Remediation → String → Value → R (Unit {0})
  publish_completion_by request state result details = do
    message_id ← uuid4
    now ← lift clock
    publish remediator_executions (completion request message_id now state result details)

  -- steps 3 and 4 for an action that ran: verify, and roll back if the verification fails
  unfoldable pub verify_fix : Message → Remediation → R (Unit {0})
  verify_fix response state = do
    (verified, reason) ← verify o state.runbook state.diagnosis
    (if verified then publish_completion_by response state "success" reason else (do
      _ ← rollback o state.action
      publish_completion_by response state "failed_verification" reason))

  -- the branch of an approval
  unfoldable pub carry_out : Message → Remediation → R (Unit {0})
  carry_out response state = do
    _ ← lift (typed (get "type" state.action))
    (went_well, reason) ← execute o (dict state.action)
    (if went_well
        then verify_fix response state
        else publish_completion_by response state "failed_execution" reason)
    forget response.correlation_id

  -- the branches on the decision's status
  unfoldable pub decide : Message → Remediation → R (Unit {0})
  decide response state =
      if is_text "rejected" (get_or "status" null response.payload)
      then forget response.correlation_id
      else if is_text "pending_human_approval" (get_or "status" null response.payload)
      then return tt
      else if is_text "approved" (get_or "status" null response.payload)
      then carry_out response state
      else return tt

  unfoldable pub handle_safety_decision : Message → R (Unit {0})
  handle_safety_decision response = do
    s ← get_agent
    match_option (lookup response.correlation_id s.active_remediations) (return tt)
        (decide response)

-- `_publish_completion` at a time, with the clock of this module
unfoldable pub publish_completion :
    Outside → ℕ → Message → Remediation → String → Value → R (Unit {0})
publish_completion o now = publish_completion_by o (utc_now imported now)

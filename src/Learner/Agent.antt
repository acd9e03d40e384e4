-- ===== src/Learner/Agent.antt =====
-- `LearnerAgent` (agents/learner/src/main.py). `at` is the text of the time of a call, and `stored` says
-- whether the session of the optimizer commits.
use dev_ops_agent_swarm.Base.{ℕ, String, Bool, Option, none, some, Dict, ◌==◌, if◌then◌else◌}
use dev_ops_agent_swarm.Base.Int.{ℤ, pos}
use dev_ops_agent_swarm.Base.Result.{Result, ok, raise, type_error, runtime_error, ◌>>=◌}
use dev_ops_agent_swarm.Base.Value.{Value, Fields, field, int, str, get_or}
use dev_ops_agent_swarm.Learner.Optimizer.{RunbookStats, record_report}
use dev_ops_agent_swarm.Learner.Recognizer.{enrich_diagnosis}
use dev_ops_agent_swarm.Learner.Vectorizer.{Conversions, Store, upsert}
use dev_ops_agent_swarm.Messaging.Message.{Message, Fresh, agent_message}
use dev_ops_agent_swarm.Observer.Numbers.{Numbers}

-- what the learner keeps: the collection and the table `runbook_stats`
pub record Memory (Collection : Type 0) : Type 0 where
  pub collection : Collection
  pub table : Dict RunbookStats

-- a parameter of the statement that is no text is refused
abbrev pub text_column : Value → Result String
text_column (str s) = ok s
text_column _ = raise type_error

-- a `try` whose exception is logged
abbrev pub kept_or : {A : Type 0} → A → Result A → A
kept_or before (ok after) = after
kept_or before (raise _) = before

module _ (n : Numbers) (c : Conversions) (s : Store n.Float) where
  -- `self._vectorizer.upsert({"incident_id": incident_id, **payload})`
  unfoldable pub upserted_feedback : Message → s.Collection → Result s.Collection
  upserted_feedback msg collection =
      let incident_id = get_or "incident_id" (str msg.correlation_id) msg.payload in
      upsert c s incident_id (field "incident_id" incident_id msg.payload) collection

  -- `self._optimizer.record(…)`
  unfoldable pub recorded_feedback :
      String → Bool → Message → ℤ → Dict RunbookStats → Result (Dict RunbookStats)
  recorded_feedback at stored msg mttr table = do
    runbook_id ← text_column (get_or "runbook_id" (str "unknown") msg.payload)
    (if stored
        then ok (
            record_report
              (record {
                runbook_id = runbook_id;
                outcome = get_or "outcome" (str "unknown") msg.payload;
                mttr_seconds = mttr;
                at = at;
              })
              table)
        else raise runtime_error)

  -- `_handle_feedback`: what is kept, or the exception of `int`
  unfoldable pub handle_feedback :
      String → Bool → Message → Memory s.Collection → Result (Memory s.Collection)
  handle_feedback at stored msg memory = do
    mttr ← c.integer (get_or "mttr_seconds" (int (pos 0)) msg.payload)
    ok (record {
      collection = kept_or memory.collection (upserted_feedback msg memory.collection);
      table = kept_or memory.table (recorded_feedback at stored msg mttr memory.table);
    })

  module _ (truncated : ℤ → ℕ → ℤ) (threshold : n.Float) where
    abbrev pub query_response : Fresh → Message → Fields → Message
    query_response fresh question enrichment =
        record (agent_message fresh "agents.learner" "learning_query_response" enrichment) {
          target_agent = question.source_agent;
          correlation_id = question.correlation_id;
        }

    -- the reply to an inbox, if there is one
    abbrev pub addressed : String → Message → Option (String × Message)
    addressed reply msg = if reply == "" then none else some (reply, msg)

    -- `_handle_query`: what is sent, if anything; `decoded` is the message that the data give
    unfoldable pub handle_query :
        Fresh → String → Result Message → Memory s.Collection → Option (String × Message)
    handle_query fresh reply decoded memory = kept_or none (do
      question ← decoded
      enrichment ← enrich_diagnosis n truncated c s threshold question.payload memory.collection
      ok (addressed reply (query_response fresh question enrichment)))

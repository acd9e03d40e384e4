-- ===== src/Observer/Logs.antt =====
-- `LogObserver` (agents/observer/src/log_observer.py). `respond name` is the JSON of the response to the
-- query of a name, or an exception; `shortened` is `v[:200]`.
use dev_ops_agent_swarm.Base.{ℕ, String, List, [], ◌∷◌, length, if◌then◌else◌}
use dev_ops_agent_swarm.Base.Int.{pos}
use dev_ops_agent_swarm.Base.Iteration.{iterated, first_of}
use dev_ops_agent_swarm.Base.Result.{Result, ok, raise, value_error}
use dev_ops_agent_swarm.Base.Value.{
  Value, nil, Fields, end, null, int, str, list, dict, get_or, as_dict, is_text, or_else, truthy,
  f_string,
}
use dev_ops_agent_swarm.Messaging.Client.{return, lift, attempt, ◌>>=◌, ◌>>◌}
use dev_ops_agent_swarm.Observer.Anomaly.{AnomalyResult, anomaly_result}
use dev_ops_agent_swarm.Observer.State.{Obs, Texts, report}

pub record LogQuery : Type 0 where
  pub name : String
  pub severity : String

abbrev pub log_query : String → String → LogQuery
log_query name severity = record { name = name; severity = severity }

abbrev pub log_queries : List LogQuery
log_queries =
    log_query "unhandled_exception" "high"
    ∷ log_query "connection_refused" "critical"
    ∷ log_query "oom_killed" "critical"
    ∷ []

-- `timestamp_ns, log_line = …`
abbrev pub second_of_two : List Value → Result Value
second_of_two (_ ∷ line ∷ []) = ok line
second_of_two _ = raise value_error

-- the service that the labels of a stream name
abbrev pub stream_service : Fields → Value
stream_service stream =
    or_else (or_else (get_or "container" null stream) (get_or "job" null stream)) (str "unknown")

abbrev pub log_anomaly : LogQuery → Fields → Value → ℕ → Value → AnomalyResult
log_anomaly q stream values count shown =
    record (anomaly_result q.name (stream_service stream) q.severity (int (pos count))
      "log_pattern") {
        description = f_string (str "Matched log pattern: " ∷ shown ∷ str "..." ∷ []);
        labels = dict stream;
        raw_payload = values;
      }

module _ (texts : Texts) (shortened : Value → Result Value) (now : ℕ) where
  -- the body of the loop over the streams, for lines that are not empty
  unfoldable pub report_stream : LogQuery → Fields → Value → Obs (Unit {0}) (Unit {0})
  report_stream q stream values = do
    entry ← lift (first_of values)
    parts ← lift (iterated entry)
    log_line ← lift (second_of_two parts)
    lines ← lift (iterated values)
    shown ← lift (shortened log_line)
    report texts now (log_anomaly q stream values (length lines) shown)

  unfoldable pub poll_streams : LogQuery → List Value → Obs (Unit {0}) (Unit {0})
  poll_streams q [] = return tt
  poll_streams q (r ∷ rest) =
      let later = poll_streams q rest in
      do
        result ← lift (as_dict r)
        stream ← lift (as_dict (get_or "stream" (dict end) result))
        (if truthy (get_or "values" (list nil) result)
            then report_stream q stream (get_or "values" (list nil) result)
            else return tt)
        later

  -- the body of the `try`
  unfoldable pub poll_query : LogQuery → Result Value → Obs (Unit {0}) (Unit {0})
  poll_query q response = do
    json ← lift response
    body ← lift (as_dict json)
    (if is_text "success" (get_or "status" null body)
        then (do
          data_field ← lift (as_dict (get_or "data" (dict end) body))
          results ← lift (iterated (get_or "result" (list nil) data_field))
          poll_streams q results)
        else return tt)

  -- the loop over the queries, each in its `try`
  unfoldable pub poll_each : (String → Result Value) → List LogQuery → Obs (Unit {0}) (Unit {0})
  poll_each respond [] = return tt
  poll_each respond (q ∷ rest) = do
    _ ← attempt (poll_query q (respond q.name))
    poll_each respond rest

  unfoldable pub poll_logs : (String → Result Value) → Obs (Unit {0}) (Unit {0})
  poll_logs respond = poll_each respond log_queries

-- ===== src/Diagnoser/Context.antt =====
-- `ContextCollector` (agents/diagnoser/src/context_collector.py).
use dev_ops_agent_swarm.Base.{
  last_of, ℕ, ◌+◌, ◌-◌, ◌*◌, String, List, [], ◌∷◌, ◌++◌, length, if◌then◌else◌, nat_eq, Option,
  none, some,
}
use dev_ops_agent_swarm.Base.Int.{pos}
use dev_ops_agent_swarm.Base.Iteration.{iterated, element_one}
use dev_ops_agent_swarm.Base.Result.{
  Result, Error, ok, raise, value_error, attribute_error, key_error, type_error, ◌>>=◌,
}
use dev_ops_agent_swarm.Base.Value.{
  Value, Items, nil, cons, Fields, end, field, null, int, str, list, dict, get_or, as_dict, truthy,
  f_string,
}
use dev_ops_agent_swarm.Messaging.Message.{second}

-- What answers from outside. `loki service start stop` and `prometheus metric service start stop` are
-- the JSON of the responses to the queries, or an exception of the client; `from_iso` is
-- `datetime.fromisoformat`, which raises `ValueError`, `four_digits v` is `f"{float(v):.4f}"` or the
-- error of `float`, `strip` and `with_offset` are `.strip()` and `.replace("Z", "+00:00")`, `iso` is
-- `.isoformat()`, and `text_of` is `str` of an exception.
pub record Telemetry : Type 0 where
  pub loki : Value → ℕ → ℕ → Result Value
  pub prometheus : String → Value → ℕ → ℕ → Result Value
  pub from_iso : String → Result ℕ
  pub four_digits : Value → Result String
  pub strip : String → String
  pub with_offset : String → String
  pub iso : ℕ → String
  pub text_of : Error → String

abbrev pub items_of : List Value → Items
items_of [] = nil
items_of (v ∷ vs) = cons v (items_of vs)

-- `value[1].strip()`, where the receiver must be a text
abbrev pub stripped : (String → String) → Value → Result Value
stripped strip (str s) = ok (str (strip s))
stripped strip _ = raise attribute_error

-- the line of an entry of two elements
abbrev pub second_of : Value → List Value → Result Value
second_of (dict _) _ = raise key_error
second_of _ (_ ∷ line ∷ _) = ok line
second_of _ _ = raise type_error

-- `results[0]`, if `results` is not empty
abbrev pub first_result : Value → Result (Option Value)
first_result (list (cons v _)) = ok (some v)
first_result v = if truthy v then raise type_error else ok none

-- the receiver of `.replace` must be a text
abbrev pub receiver : Value → Result String
receiver (str s) = ok s
receiver _ = raise attribute_error

module _ (t : Telemetry) where
  -- the inner loop over `values`
  unfoldable pub lines_of_stream : List Value → Result (List Value)
  lines_of_stream [] = ok []
  lines_of_stream (value ∷ rest) =
      let later = lines_of_stream rest in
      do
        parts ← iterated value
        (if nat_eq (length parts) 2
            then (do
              raw ← second_of value parts
              line ← stripped t.strip raw
              others ← later
              ok (line ∷ others))
            else later)

  -- the loop over the result's streams
  unfoldable pub log_lines : List Value → Result (List Value)
  log_lines [] = ok []
  log_lines (result ∷ rest) = do
    stream ← as_dict result
    values ← iterated (get_or "values" (list nil) stream)
    lines ← lines_of_stream values
    others ← log_lines rest
    ok (lines ++ others)

  -- the body of the `try`
  unfoldable pub fetched_logs : Result Value → Result (List Value)
  fetched_logs response = do
    json ← response
    body ← as_dict json
    data_field ← as_dict (get_or "data" (dict end) body)
    streams ← iterated (get_or "result" (list nil) data_field)
    lines ← log_lines streams
    ok (last_of 50 lines)

  -- `except Exception as e`
  abbrev pub or_failed : Result (List Value) → List Value
  or_failed (ok lines) = lines
  or_failed (raise e) =
      f_string (str "<Failed to fetch logs: " ∷ str (t.text_of e) ∷ str ">" ∷ []) ∷ []

  unfoldable pub get_recent_logs : Value → ℕ → ℕ → List Value
  get_recent_logs service start stop =
      if truthy service then or_failed (fetched_logs (t.loki service start stop)) else []

  -- `float(val)`, where a `ValueError` gives the text back
  abbrev pub formatted_or_raw : Value → Result String → Result Value
  formatted_or_raw raw (ok text) = ok (str text)
  formatted_or_raw raw (raise value_error) = ok raw
  formatted_or_raw raw (raise e) = raise e

  -- `results[0].get("value", [0, "0"])[1]` and its format
  abbrev pub averaged : Option Value → Result Value
  averaged none = ok (str "No data")
  averaged (some result) = do
    series ← as_dict result
    raw ← element_one (get_or "value" (list (cons (int (pos 0)) (cons (str "0") nil))) series)
    formatted_or_raw raw (t.four_digits raw)

  -- the body of the `try`
  unfoldable pub fetched_average : Result Value → Result Value
  fetched_average response = do
    json ← response
    body ← as_dict json
    data_field ← as_dict (get_or "data" (dict end) body)
    found ← first_result (get_or "result" (list nil) data_field)
    averaged found

  abbrev pub or_error : Result Value → Value
  or_error (ok v) = v
  or_error (raise _) = str "Error fetching"

  -- `_query_prom_avg`
  unfoldable pub query_prom_avg : String → Value → ℕ → ℕ → Value
  query_prom_avg metric service start stop =
      or_error (fetched_average (t.prometheus metric service start stop))

  unfoldable pub get_recent_metrics : Value → ℕ → ℕ → Value
  get_recent_metrics service start stop =
      if truthy service
      then f_string (
          str "CPU Usage Avg (1m rate): "
          ∷ query_prom_avg "container_cpu_usage_seconds_total" service start stop
          ∷ str ", Memory Usage Avg: "
          ∷ query_prom_avg "container_memory_usage_bytes" service start stop
          ∷ str " bytes"
          ∷ [])
      else str "No service specified."

  -- an unreadable time is replaced by the present
  abbrev pub or_now : ℕ → Result ℕ → Result ℕ
  or_now now (raise value_error) = ok now
  or_now now answer = answer

  unfoldable pub anomaly_time : ℕ → Value → Result ℕ
  anomaly_time now raw =
      if truthy raw
      then (do s ← receiver raw; or_now now (t.from_iso (t.with_offset s)))
      else ok now

  -- the dictionary that `collect_context` returns for the window from `start` to `stop`
  unfoldable pub collected : Fields → ℕ → ℕ → Fields
  collected anomaly start stop =
      let service = get_or "service" null anomaly in
      let window = field "start" (str (t.iso start)) (field "end" (str (t.iso stop)) end) in
      let surroundings = field "logs" (list (items_of (get_recent_logs service start stop))) (
        field "metrics_summary" (get_recent_metrics service start stop)
          (field "window" (dict window) end)) in
      field "anomaly" (dict anomaly) (field "context" (dict surroundings) end)

  -- times are those of a clock: none is in the first five minutes of the epoch
  unfoldable pub collect_context : ℕ → Fields → Result Fields
  collect_context now anomaly = do
    at ← anomaly_time now (get_or "timestamp" null anomaly)
    ok (collected anomaly (at - 300 * second) (at + 60 * second))

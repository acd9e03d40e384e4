-- ===== src/Diagnoser/Hypothesis.antt =====
-- `HypothesisGenerator` (agents/diagnoser/src/hypothesis_generator.py). `reply` is what the call of
-- the language model gives: the JSON value of its text, or an exception. `text_of` is `str` of an
-- exception, and `to_int` is `int`.
use dev_ops_agent_swarm.Base.{String, [], ◌∷◌, if◌then◌else◌}
use dev_ops_agent_swarm.Base.Int.{ℤ, pos}
use dev_ops_agent_swarm.Base.Result.{Result, Error, ok, raise, ◌>>=◌}
use dev_ops_agent_swarm.Base.Value.{
  Value, nil, cons, Fields, end, field, int, str, list, dict, get_or, as_dict, as_key, is_text,
  f_string,
}

-- `category_map.get(metric, …)`
unfoldable pub category_of : Value → String × String
category_of metric =
    if is_text "cpu_usage" metric
    then ("resource_exhaustion", "scale_up")
    else if is_text "memory_usage" metric
    then ("resource_exhaustion", "scale_up")
    else if is_text "error_rate" metric
    then ("application_error", "restart_service")
    else if is_text "http_health" metric
    then ("network", "restart_service")
    else if is_text "latency_p99" metric
    then ("application_error", "circuit_break")
    else ("unknown", "human_escalation")

-- the dictionary of the heuristic
abbrev heuristic : Value → Value → String × String → Fields
heuristic service metric (category, runbook) = field "root_cause_service" service (
    field "root_cause_category" (str category) (
      field "confidence" (int (pos 60)) (
        field "diagnosis_summary"
          (f_string (str "Heuristic inference from " ∷ metric ∷ str " anomaly on " ∷ service ∷ []))
          (field "recommended_runbook" (str runbook) (
            field "reasoning"
              (f_string (
                str "Metric '"
                ∷ metric
                ∷ str "' exceeded threshold on service '"
                ∷ service
                ∷ str "'."
                ∷ []))
              (field "explained_anomalies" (list (cons metric nil)) end))))))

unfoldable pub generate_dummy_hypothesis : Fields → Result (Fields × ℤ)
generate_dummy_hypothesis context = do
  anomaly ← as_dict (get_or "anomaly" (dict end) context)
  metric ← as_key (get_or "metric" (str "unknown") anomaly)
  ok (heuristic (get_or "service" (str "unknown") anomaly) metric (category_of metric), pos 60)

pub data Backend : Type 0 where
  gemini openai dummy : Backend

module _ (to_int : Value → Result ℤ) (text_of : Error → String) where
  -- what the `try` of the two backends reads of the reply
  abbrev pub parsed : Result Value → Result (Fields × ℤ)
  parsed reply = do
    value ← reply
    diagnosis ← as_dict value
    confidence ← to_int (get_or "confidence" (int (pos 50)) diagnosis)
    ok (diagnosis, confidence)

  -- `except Exception as e`
  abbrev pub or_failure : String → Result (Fields × ℤ) → Fields × ℤ
  or_failure summary (ok answer) = answer
  or_failure summary (raise e) =
      (field "error" (str (text_of e)) (field "diagnosis_summary" (str summary) end), pos 0)

  unfoldable pub gemini_generate : Result Value → Fields × ℤ
  gemini_generate reply = or_failure "Gemini LLM failure" (parsed reply)

  unfoldable pub openai_generate : Result Value → Fields × ℤ
  openai_generate reply = or_failure "OpenAI LLM failure" (parsed reply)

  unfoldable pub generate_hypothesis : Backend → Result Value → Fields → Result (Fields × ℤ)
  generate_hypothesis gemini reply context = ok (gemini_generate reply)
  generate_hypothesis openai reply context = ok (openai_generate reply)
  generate_hypothesis dummy reply context = generate_dummy_hypothesis context

-- ===== src/Observer/Metrics.antt =====
-- `MetricsObserver` (agents/observer/src/metrics_observer.py). `respond name` is the JSON of the response
-- to the query of a name, or an exception.
use dev_ops_agent_swarm.Base.{
  ℕ, String, List, [], ◌∷◌, Option, none, some, Dict, lookup, insert, if◌then◌else◌,
}
use dev_ops_agent_swarm.Base.Int.{pos}
use dev_ops_agent_swarm.Base.Iteration.{iterated, element_one}
use dev_ops_agent_swarm.Base.Result.{Result}
use dev_ops_agent_swarm.Base.Value.{
  Value, nil, cons, Fields, end, field, null, int, str, list, dict, get_or, as_dict, as_key,
  is_text, or_else,
}
use dev_ops_agent_swarm.Messaging.Client.{done, return, lift, attempt, match_option, ◌>>=◌, ◌>>◌}
use dev_ops_agent_swarm.Observer.Anomaly.{AnomalyResult}
use dev_ops_agent_swarm.Observer.Detector
use dev_ops_agent_swarm.Observer.Detector.{Detector, Config}
use dev_ops_agent_swarm.Observer.Numbers.{Numbers}
use dev_ops_agent_swarm.Observer.Predictor
use dev_ops_agent_swarm.Observer.Predictor.{TrendPredictor, TrendAlert, push}
use dev_ops_agent_swarm.Observer.State.{Obs, Texts, publish_message, report_all}

pub record MetricQuery (Float : Type 0) : Type 0 where
  pub name : String
  pub config : Config Float

-- the predictors by the text of their metric and service
pub record Metrics (Float : Type 0) : Type 0 where
  pub detector : Detector Float
  pub predictors : Dict (TrendPredictor Float)

-- `severity_map.get("warning", 1.0)`
abbrev pub or_default : {A : Type 0} → A → Option A → A
or_default d none = d
or_default d (some a) = a

abbrev pub metric_service : Fields → Value
metric_service labels =
    or_else (or_else (get_or "job" null labels) (get_or "container" null labels)) (str "unknown")

module _ (n : Numbers) (texts : Texts) (key : String → Value → String) (now : ℕ)
    (stamp : n.Float) where
  open n use {Float, of_nat, of_value, to_value, seven_tenths}

  abbrev pub Met : Type 0 → Type 0
  Met = Obs (Metrics Float)

  abbrev pub trend_payload : TrendAlert Float → Fields
  trend_payload a = field "metric" (str a.metric_name) (
      field "service" a.service (
        field "value" (to_value a.current_value) (
          field "projected_value" (to_value a.projected_value) (
            field "threshold" (to_value a.threshold) (
              field "predicted_breach_in_seconds" (to_value a.predicted_breach_in_seconds) (
                field "slope" (to_value a.slope) (
                  field "confidence" (to_value a.confidence) (
                    field "alert_type" (str "trend_breach_predicted")
                      (field "severity" (str "warning") end)))))))))

  unfoldable pub publish_trend_alert : TrendAlert Float → Met (Unit {0})
  publish_trend_alert a = publish_message "trend_breach_predicted" (trend_payload a)

  -- `self.detector.evaluate(…)`
  unfoldable pub detect :
      MetricQuery Float → Value → Float → Fields → Met (Result (List AnomalyResult))
  detect q service value labels w =
      let m = w.agent.own in
      let (detector, found) =
        Detector.evaluate n key q.name service value q.config (dict labels) m.detector in
      done found (record w { agent = record (w.agent) { own = record m { detector = detector } } })

  abbrev pub new_predictor : MetricQuery Float → Value → TrendPredictor Float
  new_predictor q service = record {
    metric_name = q.name;
    service = service;
    threshold = or_default (of_nat 1) (lookup "warning" q.config.severity_map);
    look_ahead_seconds = of_nat 1800;
    window_size = 20;
    min_samples = 5;
    min_r2 = seven_tenths;
    samples = [];
  }

  -- the predictor of a metric and a service, made where there is none, with the new sample
  unfoldable pub feed : MetricQuery Float → Value → Float → Met (TrendPredictor Float)
  feed q service value w =
      let m = w.agent.own in
      let k = key q.name service in
      let predictor =
        push n value stamp (or_default (new_predictor q service) (lookup k m.predictors)) in
      done predictor (record w {
        agent = record (w.agent) {
          own = record m { predictors = insert k predictor m.predictors };
        };
      })

  unfoldable pub predict : MetricQuery Float → Value → Float → Met (Unit {0})
  predict q service value = do
    _ ← lift (as_key service)
    predictor ← feed q service value
    alert ← lift (Predictor.evaluate n predictor)
    match_option alert (return tt) publish_trend_alert

  -- what follows for a reading that is a number
  unfoldable pub poll_reading : MetricQuery Float → Fields → Value → Met (Unit {0})
  poll_reading q labels reading = do
    value ← lift (of_value reading)
    found ← detect q (metric_service labels) value labels
    anomalies ← lift found
    report_all texts now anomalies
    predict q (metric_service labels) value

  unfoldable pub poll_results : MetricQuery Float → List Value → Met (Unit {0})
  poll_results q [] = return tt
  poll_results q (r ∷ rest) =
      let later = poll_results q rest in
      do
        result ← lift (as_dict r)
        labels ← lift (as_dict (get_or "metric" (dict end) result))
        reading ←
            lift
              (element_one (get_or "value" (list (cons (int (pos 0)) (cons (str "0") nil))) result))
        (if is_text "NaN" reading then return tt else poll_reading q labels reading)
        later

  -- the body of the `try`
  unfoldable pub poll_metric : MetricQuery Float → Result Value → Met (Unit {0})
  poll_metric q response = do
    json ← lift response
    body ← lift (as_dict json)
    (if is_text "success" (get_or "status" null body)
        then (do
          data_field ← lift (as_dict (get_or "data" (dict end) body))
          results ← lift (iterated (get_or "result" (list nil) data_field))
          poll_results q results)
        else return tt)

  -- the loop over the queries, each in its `try`
  unfoldable pub poll_metrics : (String → Result Value) → List (MetricQuery Float) → Met (Unit {0})
  poll_metrics respond [] = return tt
  poll_metrics respond (q ∷ rest) = do
    _ ← attempt (poll_metric q (respond q.name))
    poll_metrics respond rest

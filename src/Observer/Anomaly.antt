-- ===== src/Observer/Anomaly.antt =====
-- `AnomalyResult` (agents/observer/src/detector.py). The service is what a label or a target gives.
use dev_ops_agent_swarm.Base.{String}
use dev_ops_agent_swarm.Base.Int.{pos}
use dev_ops_agent_swarm.Base.Value.{Value, Fields, end, field, null, int, str, dict, or_else}

pub record AnomalyResult : Type 0 where
  pub metric : String
  pub service : Value
  pub severity : String
  pub value : Value
  pub threshold_type : String
  pub threshold_used : Value
  pub z_score : Value
  pub baseline_mean : Value
  pub baseline_stdev : Value
  pub labels : Value
  pub category : Value
  pub description : Value
  pub raw_payload : Value

-- a call with the arguments that have no default
abbrev pub anomaly_result : String → Value → String → Value → String → AnomalyResult
anomaly_result metric service severity value threshold_type = record {
  metric = metric;
  service = service;
  severity = severity;
  value = value;
  threshold_type = threshold_type;
  threshold_used = int (pos 0);
  z_score = int (pos 0);
  baseline_mean = int (pos 0);
  baseline_stdev = int (pos 0);
  labels = null;
  category = null;
  description = null;
  raw_payload = null;
}

unfoldable pub to_dict : AnomalyResult → Fields
to_dict a = field "metric" (str a.metric) (
    field "service" a.service (
      field "severity" (str a.severity) (
        field "value" a.value (
          field "threshold_type" (str a.threshold_type) (
            field "threshold_used" a.threshold_used (
              field "z_score" a.z_score (
                field "baseline_mean" a.baseline_mean (
                  field "baseline_stdev" a.baseline_stdev (
                    field "labels" (or_else a.labels (dict end)) (
                      field "category" a.category (
                        field "description" a.description
                          (field "raw_payload" a.raw_payload end))))))))))))

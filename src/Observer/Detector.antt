-- ===== src/Observer/Detector.antt =====
-- `AnomalyDetector` (agents/observer/src/detector.py). `key` gives the text `f"{metric_name}:{service}"`.
pub mod Window
pub mod Severity
use dev_ops_agent_swarm.Base.{
  ℕ, String, Bool, true, false, not, List, [], ◌∷◌, ◌++◌, length, last_of, Option, none, some, Dict,
  lookup, insert, ltb, leb, ◌==◌, ◌&&◌, if◌then◌else◌,
}
use dev_ops_agent_swarm.Base.Result.{Result, ok, raise, ◌>>=◌}
use dev_ops_agent_swarm.Base.Value.{Value}
use dev_ops_agent_swarm.Observer.Anomaly.{AnomalyResult, anomaly_result}
use dev_ops_agent_swarm.Observer.Numbers.{Numbers}

pub record Detector (Float : Type 0) : Type 0 where
  pub window_size : ℕ
  pub min_data_points : ℕ
  pub windows : Dict (List Float)

-- the `config` of a query
pub record Config (Float : Type 0) : Type 0 where
  pub threshold_type : String
  pub severity_map : Dict Float

-- an entry of a `defaultdict` of deques
abbrev pub or_new : {Float : Type 0} → Option (List Float) → List Float
or_new none = []
or_new (some xs) = xs

abbrev pub window : {Float : Type 0} → String → Detector Float → List Float
window k d = or_new (lookup k d.windows)

-- `list(history)[:-1]`
abbrev pub but_last : {Float : Type 0} → List Float → List Float
but_last [] = []
but_last (x ∷ []) = []
but_last (x ∷ y ∷ ys) = x ∷ but_last (y ∷ ys)

module _ (n : Numbers) where
  open n use {Float, of_nat, hundredth, eqb, sub, div, magnitude, mean, stdev, to_value}

  -- an entry before the first of a sorted list whose threshold is not higher
  unfoldable pub insert_threshold : String × Float → Dict Float → Dict Float
  insert_threshold e [] = e ∷ []
  insert_threshold e (f ∷ fs) =
      let rest = insert_threshold e fs in if n.leb f.1 e.1 then e ∷ f ∷ fs else f ∷ rest

  -- `sorted(severity_map.items(), key=lambda item: item[1], reverse=True)`
  unfoldable pub by_threshold : Dict Float → Dict Float
  by_threshold [] = []
  by_threshold (e ∷ es) = insert_threshold e (by_threshold es)

  -- the loop that stops at the first threshold that is reached
  unfoldable pub first_reached : Float → Dict Float → Option (String × Float)
  first_reached x [] = none
  first_reached x (e ∷ es) = let later = first_reached x es in if n.leb e.1 x then some e else later

  -- the spread that a score is divided by: where the baseline does not vary, a value that differs
  -- from a mean that is not 0 is given a small one
  unfoldable pub spread : Float → Float → Float → Float
  spread value mean_value deviation =
      if eqb deviation (of_nat 0) && (not (eqb value mean_value) && not (eqb mean_value (of_nat 0)))
      then hundredth
      else deviation

  unfoldable pub score : Float → Float → Float → Float
  score value mean_value deviation =
      if not (n.leb deviation (of_nat 0)) then div (sub value mean_value) deviation else of_nat 0

  -- `statistics.stdev(baseline) if len(baseline) > 1 else 0.0`
  unfoldable pub deviation_of : List Float → Result Float
  deviation_of baseline = if ltb 1 (length baseline) then stdev baseline else ok (of_nat 0)

  abbrev pub dynamic_anomaly :
      String
      → Value
      → Float
      → Value
      → Float
      → Float
      → Float
      → Option (String × Float)
      → List AnomalyResult
  dynamic_anomaly metric service value labels z mean_value deviation none = []
  dynamic_anomaly metric service value labels z mean_value deviation (some (severity, threshold)) =
      record (anomaly_result metric service severity (to_value value) "dynamic") {
        threshold_used = to_value threshold;
        z_score = to_value z;
        baseline_mean = to_value mean_value;
        baseline_stdev = to_value deviation;
        labels = labels;
      }
      ∷ []

  abbrev pub static_anomaly :
      String → Value → Float → Value → Option (String × Float) → List AnomalyResult
  static_anomaly metric service value labels none = []
  static_anomaly metric service value labels (some (severity, threshold)) =
      record (anomaly_result metric service severity (to_value value) "static") {
        threshold_used = to_value threshold;
        labels = labels;
      }
      ∷ []

  unfoldable pub evaluate_dynamic :
      String → Value → Float → Value → Dict Float → List Float → Result (List AnomalyResult)
  evaluate_dynamic metric service value labels severity_map baseline = do
    mean_value ← mean baseline
    variation ← deviation_of baseline
    let deviation = spread value mean_value variation
    let z = score value mean_value deviation
    ok (
        dynamic_anomaly metric service value labels z mean_value deviation
          (first_reached (magnitude z) (by_threshold severity_map)))

  module _ (key : String → Value → String) where
    -- an append to a deque with `maxlen` drops from the front
    unfoldable pub record_value : String → Value → Float → Detector Float → Detector Float
    record_value metric service value d =
        let k = key metric service in
        record d { windows = insert k (last_of d.window_size (window k d ++ value ∷ [])) d.windows }

    -- the thresholds against the window, in which the new value stands last
    unfoldable pub judge :
        String → Value → Float → Config Float → Value → Detector Float → Result (List AnomalyResult)
    judge metric service value config labels d =
        let baseline = but_last (window (key metric service) d) in
        if config.threshold_type == "dynamic"
        then (if ltb (length baseline) d.min_data_points
            then ok []
            else evaluate_dynamic metric service value labels config.severity_map baseline)
        else if config.threshold_type == "static"
        then ok (
            static_anomaly metric service value labels
              (first_reached value (by_threshold config.severity_map)))
        else ok []

    -- `evaluate`: the value stays recorded, also where the evaluation raises
    unfoldable pub evaluate :
        String
        → Value
        → Float
        → Config Float
        → Value
        → Detector Float
        → Detector Float × Result (List AnomalyResult)
    evaluate metric service value config labels d =
        let recorded = record_value metric service value d in
        (recorded, judge metric service value config labels recorded)

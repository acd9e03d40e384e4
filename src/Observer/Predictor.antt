-- ===== src/Observer/Predictor.antt =====
-- `TrendPredictor` (agents/observer/src/predictor.py).
use dev_ops_agent_swarm.Base.{
  ℕ, String, not, List, [], ◌∷◌, ◌++◌, length, last_of, map, Option, none, some, ltb, ◌||◌,
  if◌then◌else◌,
}
use dev_ops_agent_swarm.Base.Result.{Result, ok, raise, index_error}
use dev_ops_agent_swarm.Base.Value.{Value}
use dev_ops_agent_swarm.Observer.Numbers.{Numbers}

pub record Sample (Float : Type 0) : Type 0 where
  pub timestamp : Float
  pub value : Float

pub record TrendPredictor (Float : Type 0) : Type 0 where
  pub metric_name : String
  pub service : Value
  pub threshold : Float
  pub look_ahead_seconds : Float
  pub window_size : ℕ
  pub min_samples : ℕ
  pub min_r2 : Float
  pub samples : List (Sample Float)

pub record TrendAlert (Float : Type 0) : Type 0 where
  pub metric_name : String
  pub service : Value
  pub current_value : Float
  pub projected_value : Float
  pub threshold : Float
  pub predicted_breach_in_seconds : Float
  pub slope : Float
  pub confidence : Float

-- a line and how well it fits
pub record Fit (Float : Type 0) : Type 0 where
  pub slope : Float
  pub intercept : Float
  pub r2 : Float

abbrev pub final : {A : Type 0} → A → List A → A
final x [] = x
final x (y ∷ ys) = final y ys

module _ (n : Numbers) where
  open n use {Float, of_nat, eqb, add, sub, mul, div, rounded, seven_tenths}

  abbrev zero : Float
  zero = of_nat 0

  unfoldable pub push : Float → Float → TrendPredictor Float → TrendPredictor Float
  push value timestamp p = record p {
    samples =
        last_of p.window_size (p.samples ++ record { timestamp = timestamp; value = value } ∷ []);
  }

  abbrev pub sum : List Float → Float
  sum xs = sum_from zero xs
    where
      sum_from : Float → List Float → Float
      sum_from acc [] = acc
      sum_from acc (x ∷ rest) = sum_from (add acc x) rest

  abbrev pub square : Float → Float
  square x = mul x x

  abbrev pub timestamps : List (Sample Float) → List Float
  timestamps = map (λ s. s.timestamp)

  abbrev pub values : List (Sample Float) → List Float
  values = map (λ s. s.value)

  -- the sums of `_ols`, over the samples with their times since the first
  unfoldable pub fitted : Float → List (Sample Float) → Fit Float
  fitted x0 samples =
      let count = of_nat (length samples) in
      let mean_x = div (sum (timestamps samples)) count in
      let mean_y = div (sum (values samples)) count in
      let ss_xy = sum (map (λ s. mul (sub s.timestamp mean_x) (sub s.value mean_y)) samples) in
      let ss_xx = sum (map (λ s. square (sub s.timestamp mean_x)) samples) in
      let slope = div ss_xy ss_xx in
      let intercept = sub mean_y (mul slope mean_x) in
      let ss_res =
        sum (map (λ s. square (sub s.value (add intercept (mul slope s.timestamp)))) samples) in
      let ss_tot = sum (map (λ s. square (sub s.value mean_y)) samples) in
      let r2 = if not (n.leb ss_tot zero) then sub (of_nat 1) (div ss_res ss_tot) else zero in
      if eqb ss_xx zero then record { slope = zero; intercept = mean_y; r2 = zero } else record {
        slope = slope;
        intercept = add intercept (mul slope x0);
        r2 = if n.leb r2 zero then zero else r2;
      }

  abbrev pub since : Float → Sample Float → Sample Float
  since x0 s = record s { timestamp = sub s.timestamp x0 }

  -- `_ols`, of which the times are taken from the first on
  unfoldable pub ols : Sample Float → List (Sample Float) → Fit Float
  ols first rest = fitted first.timestamp (map (since first.timestamp) (first ∷ rest))

  abbrev pub alert_of : TrendPredictor Float → Fit Float → Sample Float → Float → TrendAlert Float
  alert_of p fit latest time_to_breach = record {
    metric_name = p.metric_name;
    service = p.service;
    current_value = rounded 4 latest.value;
    projected_value =
        rounded 4 (add fit.intercept (mul fit.slope (add latest.timestamp time_to_breach)));
    threshold = p.threshold;
    predicted_breach_in_seconds = rounded 1 time_to_breach;
    slope = rounded 6 fit.slope;
    confidence = rounded 4 fit.r2;
  }

  -- the tests on the line
  unfoldable pub predicted :
      TrendPredictor Float → Fit Float → Sample Float → Option (TrendAlert Float)
  predicted p fit latest =
      let time_to_breach = div (sub p.threshold latest.value) fit.slope in
      if not (n.leb p.min_r2 fit.r2)
      then none
      else if n.leb fit.slope zero
      then none
      else if not (n.leb zero time_to_breach) || not (n.leb time_to_breach p.look_ahead_seconds)
      then none
      else some (alert_of p fit latest time_to_breach)

  abbrev pub over_samples :
      TrendPredictor Float → List (Sample Float) → Result (Option (TrendAlert Float))
  over_samples p [] = raise index_error
  over_samples p (first ∷ rest) = ok (predicted p (ols first rest) (final first rest))

  unfoldable pub evaluate : TrendPredictor Float → Result (Option (TrendAlert Float))
  evaluate p = if ltb (length p.samples) p.min_samples then ok none else over_samples p p.samples

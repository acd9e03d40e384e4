-- ===== src/Observer/Rounds.antt =====
-- The rounds of the observers publish what their reports publish: the rules by which a predicate on
-- messages that holds of each report holds of a round.
use dev_ops_agent_swarm.Base.{ℕ, String, List, [], ◌∷◌}
use dev_ops_agent_swarm.Base.Result.{Result}
use dev_ops_agent_swarm.Base.Value.{Value}
use dev_ops_agent_swarm.Messaging.Message.{Message}
use dev_ops_agent_swarm.Messaging.Sends.{
  Sends, Sends->>=, Sends->>, Sends-return, Sends-lift, Sends-attempt, Sends-if, Sends-match_option,
}
use dev_ops_agent_swarm.Observer.Anomaly.{AnomalyResult}
use dev_ops_agent_swarm.Observer.Health.{Target, report_failed, probe, probe_anomaly}
use dev_ops_agent_swarm.Observer.Logs.{LogQuery, report_stream, poll_streams, poll_query, poll_each}
use dev_ops_agent_swarm.Observer.Metrics.{
  MetricQuery, publish_trend_alert, detect, feed, predict, poll_reading, poll_results, poll_metric,
  poll_metrics,
}
use dev_ops_agent_swarm.Observer.Numbers.{Numbers}
use dev_ops_agent_swarm.Observer.Predictor.{TrendAlert}
use dev_ops_agent_swarm.Observer.State.{Observer, Texts, report, report_all}
use dev_ops_agent_swarm.Observer.Synthetic.{
  Ending, finished, status_error, request_error, other_error, Seconds, publish_failure, concluded,
}

module _ (P : String × Message → Type 0) (texts : Texts) (now : ℕ)
    (reports : (Own : Type 0) (a : AnomalyResult)
      → Sends {S = Observer Own} P (report texts now a)) where
  report_all-Sends :
      {Own : Type 0} (found : List AnomalyResult)
      → Sends {S = Observer Own} P (report_all texts now found)
  unfolding report_all
  report_all-Sends [] = Sends-return _
  report_all-Sends (a ∷ others) = Sends->> (reports _ a) (report_all-Sends others)

  pub report_failed-Sends :
      (respond : String → Result (ℕ × Result Value)) (ts : List Target)
      → Sends P (report_failed texts respond now ts)
  unfolding report_failed
  report_failed-Sends respond [] = Sends-return _
  report_failed-Sends respond (target ∷ ts) =
      Sends->>
        (Sends-if (probe (respond target.url)) (Sends-return _) (reports _ (probe_anomaly target)))
        (report_failed-Sends respond ts)

  module _ (shortened : Value → Result Value) where
    poll_streams-Sends :
        (q : LogQuery) (rs : List Value) → Sends P (poll_streams texts shortened now q rs)
    unfolding poll_streams report_stream
    poll_streams-Sends q [] = Sends-return _
    poll_streams-Sends q (r ∷ rs) =
        let rest = poll_streams-Sends q rs in
        Sends->>= (Sends-lift _) λ result. Sends->>= (Sends-lift _) λ stream.
          Sends->>
            (Sends-if _
              (Sends->>= (Sends-lift _) λ entry. Sends->>= (Sends-lift _) λ parts.
                Sends->>= (Sends-lift _) λ line.
                  Sends->>= (Sends-lift _) λ lines. Sends->>= (Sends-lift _) λ shown. reports _ _)
              (Sends-return _))
            rest

    pub poll_each-Sends :
        (respond : String → Result Value) (qs : List LogQuery)
        → Sends P (poll_each texts shortened now respond qs)
    unfolding poll_each poll_query
    poll_each-Sends respond [] = Sends-return _
    poll_each-Sends respond (q ∷ qs) =
        Sends->>=
          (Sends-attempt (
            Sends->>= (Sends-lift _) λ json. Sends->>= (Sends-lift _) λ body.
              Sends-if _
                (Sends->>= (Sends-lift _)
                  λ data_field. Sends->>= (Sends-lift _) λ results. poll_streams-Sends q results)
                (Sends-return _)))
          λ _. poll_each-Sends respond qs

  pub concluded-Sends :
      (seconds : Seconds) (duration : ℕ) (ending : Ending)
      → Sends P (concluded texts seconds now duration ending)
  unfolding concluded publish_failure
  concluded-Sends seconds duration finished =
      Sends->>= (Sends-attempt (Sends-if _ (reports _ _) (Sends-return _))) λ _. Sends-return _
  concluded-Sends seconds duration (status_error status url) = reports _ _
  concluded-Sends seconds duration (request_error url) = reports _ _
  concluded-Sends seconds duration other_error = Sends-return _

  module _ (n : Numbers) (key : String → Value → String) (stamp : n.Float)
      (trends : (a : TrendAlert n.Float)
        → Sends P (publish_trend_alert n texts key now stamp a)) where
    predict-Sends :
        (q : MetricQuery n.Float) (service : Value) (value : n.Float)
        → Sends P (predict n texts key now stamp q service value)
    unfolding predict feed
    predict-Sends q service value = Sends->>= (Sends-lift _) λ _.
        Sends->>= (record { sends = λ w h. h })
          λ predictor.
            Sends->>= (Sends-lift _) λ alert. Sends-match_option alert (Sends-return _) trends

    poll_results-Sends :
        (q : MetricQuery n.Float) (rs : List Value)
        → Sends P (poll_results n texts key now stamp q rs)
    unfolding poll_results poll_reading detect
    poll_results-Sends q [] = Sends-return _
    poll_results-Sends q (r ∷ rs) =
        let rest = poll_results-Sends q rs in
        Sends->>= (Sends-lift _) λ result. Sends->>= (Sends-lift _) λ labels.
          Sends->>= (Sends-lift _) λ reading.
            Sends->>
              (Sends-if _ (Sends-return _) (
                Sends->>= (Sends-lift _) λ value.
                  Sends->>= (record { sends = λ w h. h })
                    λ found.
                      Sends->>= (Sends-lift _) λ anomalies.
                        Sends->> (report_all-Sends anomalies) (predict-Sends q _ value)))
              rest

    pub poll_metrics-Sends :
        (respond : String → Result Value) (qs : List (MetricQuery n.Float))
        → Sends P (poll_metrics n texts key now stamp respond qs)
    unfolding poll_metrics poll_metric
    poll_metrics-Sends respond [] = Sends-return _
    poll_metrics-Sends respond (q ∷ qs) =
        Sends->>=
          (Sends-attempt (
            Sends->>= (Sends-lift _) λ json. Sends->>= (Sends-lift _) λ body.
              Sends-if _
                (Sends->>= (Sends-lift _)
                  λ data_field. Sends->>= (Sends-lift _) λ results. poll_results-Sends q results)
                (Sends-return _)))
          λ _. poll_metrics-Sends respond qs

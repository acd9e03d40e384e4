-- ===== src/Observer/Accepted.antt =====
-- What the diagnoser makes of the observers' messages.
use dev_ops_agent_swarm.Base.{
  ltb, ◌-◌, ℕ, ◌≡◌, refl, String, Bool, List, All, inl, inr, Option-cases, if◌then◌else◌,
}
use dev_ops_agent_swarm.Base.Result.{Result, ok, >>=_ok}
use dev_ops_agent_swarm.Base.Value.{Value, Fields, str, get, get_or}
use dev_ops_agent_swarm.Diagnoser.Correlation.{
  Tables, correlate, find_or_create_incident, latest, initial_row, upgraded, severity_val, mapped,
}
use dev_ops_agent_swarm.Diagnoser.Correlation.Severity.{latest-All}
use dev_ops_agent_swarm.Messaging.Message.{Message, Fresh, agent_message}
use dev_ops_agent_swarm.Messaging.Sends.{
  Sends, Sends->>=, Sends->>, Sends-return, Sends-get_agent, Sends-next_fresh, Sends-modify,
  Sends-if, Sends-publish,
}
use dev_ops_agent_swarm.Messaging.Subjects.{observer_anomalies}
use dev_ops_agent_swarm.Observer.Anomaly.{AnomalyResult, to_dict}
use dev_ops_agent_swarm.Observer.Health.{targets, probe_endpoints}
use dev_ops_agent_swarm.Observer.Logs.{log_queries, poll_logs}
use dev_ops_agent_swarm.Observer.Metrics.{MetricQuery, publish_trend_alert, poll_metrics}
use dev_ops_agent_swarm.Observer.Numbers.{Numbers}
use dev_ops_agent_swarm.Observer.Predictor.{TrendAlert}
use dev_ops_agent_swarm.Observer.Rounds.{
  report_failed-Sends, poll_each-Sends, concluded-Sends, poll_metrics-Sends,
}
use dev_ops_agent_swarm.Observer.State.{
  Observer, Texts, count_processed, publish_message, publish_anomaly, check_duplicate, report,
}
use dev_ops_agent_swarm.Observer.Synthetic.{Reply, Seconds, simulate_checkout_flow}
use dev_ops_agent_swarm.Orchestrator.State.{Incident}

-- the severity of a row is a text, as its column has it
abbrev pub IsText : Value → Type 0
IsText v = (s : String) × (v ≡ str s)

module _ (lower : String → String) (id : String) (at : ℕ) (t : Tables) where
  -- a message on the subject of the anomalies whose correlation returns
  abbrev pub Accepted : String × Message → Type 0
  Accepted (subject, msg) =
      (subject ≡ observer_anomalies)
      × ((r : (Incident × Bool) × Tables) × (correlate lower id at msg.payload t ≡ ok r))

  severity_val-text : (v : Value) → IsText v → (k : ℕ) × (severity_val lower v ≡ ok k)
  unfolding severity_val
  severity_val-text v (s, e) = (mapped (lower s), rw e refl)

  upgraded-text :
      (severity : Value) (inc : Incident)
      → IsText severity
      → IsText inc.severity
      → (row : Incident) × (upgraded lower at severity inc ≡ ok row)
  unfolding upgraded
  upgraded-text severity inc new known =
      let (a, e) = severity_val-text severity new in
      let (b, f) = severity_val-text inc.severity known in
      (
        (if ltb b a then record inc { severity = severity; updated_at = at } else inc),
        rw (e, f) refl,
      )

  -- the severities of the stored rows are texts
  module _ (stored : All (λ e. IsText e.1.severity) t.incidents) where
    found-IsText : IsText (find_or_create_incident id at t.incidents).0.severity
    unfolding find_or_create_incident initial_row
    found-IsText = elim (Option-cases (latest at t.incidents)) [
      | inl none_active ↦ rw none_active ("medium", refl)
      | inr (inc, active) ↦
          rw active (latest-All (λ i. IsText i.severity) at t.incidents stored active)
    ]

    correlate-text :
        (payload : Fields)
        → IsText (get_or "severity" (str "medium") payload)
        → (r : (Incident × Bool) × Tables) × (correlate lower id at payload t ≡ ok r)
    unfolding correlate
    correlate-text payload severity =
        let (row, e) =
          upgraded-text (get_or "severity" (str "medium") payload)
            (find_or_create_incident id at t.incidents).0 severity found-IsText in
        (
          _,
          >>=_ok
              (upgraded lower at (get_or "severity" (str "medium") payload)
                (find_or_create_incident id at t.incidents).0)
              _ e,
        )

    Accepted-severity :
        (fresh : Fresh) (agent_id message_type : String) (payload : Fields)
        → IsText (get_or "severity" (str "medium") payload)
        → Accepted (observer_anomalies, agent_message fresh agent_id message_type payload)
    Accepted-severity fresh agent_id message_type payload severity =
        (refl, correlate-text payload severity)

    module _ {Own : Type 0} where
      publish_message-Sends :
          (message_type : String) (payload : Fields)
          → IsText (get_or "severity" (str "medium") payload)
          → Sends {S = Observer Own} Accepted (publish_message message_type payload)
      unfolding publish_message count_processed
      publish_message-Sends message_type payload severity = Sends->>= Sends-get_agent λ s.
          Sends->>= Sends-next_fresh λ fresh.
            Sends->>
              (Sends-publish _ _ (Accepted-severity fresh s.agent_id message_type payload severity))
              (Sends-modify _)

      report-Sends :
          (texts : Texts) (now : ℕ) (a : AnomalyResult)
          → Sends {S = Observer Own} Accepted (report texts now a)
      unfolding report check_duplicate publish_anomaly to_dict get
      report-Sends texts now a =
          Sends->>= (record { sends = λ w h. h })
            λ duplicate.
              Sends-if duplicate (Sends-return _)
                (publish_message-Sends "anomaly_detected" _ (a.severity, refl))

    module _ (n : Numbers) (texts : Texts) (key : String → Value → String) (now : ℕ)
        (stamp : n.Float) where
      publish_trend_alert-Sends :
          (a : TrendAlert n.Float) → Sends Accepted (publish_trend_alert n texts key now stamp a)
      unfolding publish_trend_alert get
      publish_trend_alert-Sends a =
          publish_message-Sends "trend_breach_predicted" _ ("warning", refl)

      -- Tables whose severities are texts, as their column has it, whatever the network, the
      -- endpoints, Loki, Prometheus and the arithmetic answer: a round of the health, log,
      -- synthetic or metrics observer, whether it returns or raises, leaves an outbox of messages on
      -- the subject of the anomalies, for each of which the diagnoser's correlation with these
      -- tables returns, if the outbox before held only such messages.
      pub observers-Accepted :
          (respond : String → Result (ℕ × Result Value)) (shortened : Value → Result Value)
          (logs metrics : String → Result Value) (seconds : Seconds) (is_success : ℕ → Bool)
          (login search : Reply) (start_time end_time : ℕ) (queries : List (MetricQuery n.Float))
          → Sends Accepted (probe_endpoints texts respond now)
            × Sends Accepted (poll_logs texts shortened now logs)
            × Sends Accepted (
                simulate_checkout_flow texts seconds now is_success login search start_time
                  end_time)
            × Sends Accepted (poll_metrics n texts key now stamp metrics queries)
      unfolding probe_endpoints poll_logs simulate_checkout_flow
      observers-Accepted respond shortened logs metrics seconds is_success login search start_time
            end_time queries =
          (
            report_failed-Sends Accepted texts now reports respond targets,
            poll_each-Sends Accepted texts now reports shortened logs log_queries,
            concluded-Sends Accepted texts now reports seconds (end_time - start_time) _,
            poll_metrics-Sends Accepted texts now reports n key stamp publish_trend_alert-Sends
                metrics queries,
          )
        where
          reports :
              (Own : Type 0) (a : AnomalyResult)
              → Sends {S = Observer Own} Accepted (report texts now a)
          reports Own a = report-Sends texts now a

-- ===== src/Tests/Observer.antt =====
-- Witnesses for the detector and the observers' messages, with the natural numbers as numbers.
use dev_ops_agent_swarm.Base.{
  ℕ, ◌+◌, ◌*◌, ◌≡◌, refl, String, true, false, [], ◌∷◌, last_of, lookup, ltb,
}
use dev_ops_agent_swarm.Base.Int.{pos}
use dev_ops_agent_swarm.Base.Result.{ok, raise, runtime_error}
use dev_ops_agent_swarm.Base.Value.{Value, str, int, null}
use dev_ops_agent_swarm.Diagnoser.Correlation.{Tables}
use dev_ops_agent_swarm.Messaging.Client.{World, done, fail}
use dev_ops_agent_swarm.Messaging.Message.{Fresh, second}
use dev_ops_agent_swarm.Messaging.Sends.{Sends}
use dev_ops_agent_swarm.Observer.Accepted.{Accepted, observers-Accepted}
use dev_ops_agent_swarm.Observer.Anomaly.{AnomalyResult, anomaly_result}
use dev_ops_agent_swarm.Observer.Deduplicator.{init, is_duplicate}
use dev_ops_agent_swarm.Observer.Detector.{Detector, Config, window}
use dev_ops_agent_swarm.Observer.Detector.Window.{record_all, window-readings}
use dev_ops_agent_swarm.Observer.Health.{probe_endpoints}
use dev_ops_agent_swarm.Observer.Logs.{poll_logs}
use dev_ops_agent_swarm.Observer.Metrics.{poll_metrics}
use dev_ops_agent_swarm.Observer.State.{Observer, Texts, report}
use dev_ops_agent_swarm.Observer.Suppression.{
  after_check, built_one, back_online, report-suppressed,
}
use dev_ops_agent_swarm.Observer.Synthetic.{answered, Seconds, simulate_checkout_flow}
use dev_ops_agent_swarm.Tests.Numbers.{naturals}

abbrev metric_key : String → Value → String
metric_key metric service = metric

abbrev empty : Detector ℕ
empty = record { window_size = 2; min_data_points = 1; windows = [] }

window-readings_example :
    window "cpu" (
      record_all naturals metric_key
        (("cpu", null, 1) ∷ ("cpu", null, 2) ∷ ("disk", null, 9) ∷ ("cpu", null, 3) ∷ [])
        empty)
    ≡ 2 ∷ 3 ∷ []
unfolding last_of
window-readings_example =
    window-readings naturals metric_key "cpu" 2 1
      (("cpu", null, 1) ∷ ("cpu", null, 2) ∷ ("disk", null, 9) ∷ ("cpu", null, 3) ∷ [])

abbrev static_config : Config ℕ
static_config = record {
  threshold_type = "static";
  severity_map = ("warning", 4) ∷ ("critical", 8) ∷ [];
}

abbrev dynamic_config : Config ℕ
dynamic_config = record static_config { threshold_type = "dynamic" }

abbrev one_reading : Detector ℕ
one_reading = record empty { windows = ("cpu", 3 ∷ []) ∷ [] }

abbrev identity_texts : Texts
identity_texts = record { digest = λ s. s; show = λ metric service severity. metric }

abbrev uuid : ℕ → Fresh
uuid k = record { message_uuid = "m"; correlation_uuid = "c"; trace_uuid = "t"; created = k }

abbrev offline : World (Observer Unit)
offline = record {
  agent = record {
    agent_id = "observer.health";
    messages_processed = 0;
    deduplicator = init;
    own = tt;
  };
  bus = record { connected = false; refusals = []; uuids = uuid; built = 0; outbox = [] };
}

abbrev unhealthy : AnomalyResult
unhealthy = anomaly_result "http_health" (str "user-svc") "critical" (int (pos 0)) "active_probe"

first_seen : (is_duplicate identity_texts.digest identity_texts.show 7 unhealthy init).1 ≡ false
unfolding is_duplicate init lookup
first_seen = refl

one_per_window : init.max_per_window ≡ 1
unfolding init
one_per_window = refl

within_window : ltb 9 (7 + init.window_seconds * second) ≡ true
unfolding init
within_window = refl

report-suppressed_example :
    let v = back_online (built_one (after_check identity_texts 7 unhealthy offline)) in
    (report identity_texts 7 unhealthy offline
      ≡ fail runtime_error (built_one (after_check identity_texts 7 unhealthy offline)))
    × (report identity_texts 9 unhealthy v ≡ done tt (after_check identity_texts 9 unhealthy v))
    × ((after_check identity_texts 9 unhealthy v).bus.outbox ≡ [])
report-suppressed_example =
    report-suppressed identity_texts 7 9 unhealthy offline refl one_per_window first_seen
      within_window

abbrev no_rows : Tables
no_rows = record { incidents = []; anomalies = [] }

abbrev seconds : Seconds
seconds = record { number = λ k. int (pos k); two_digits = λ k. int (pos k) }

observers-Accepted_example :
    Sends
      (Accepted (λ s. s) "i" 5 no_rows)
      (probe_endpoints identity_texts (λ url. ok (500, ok null)) 5)
    × Sends
        (Accepted (λ s. s) "i" 5 no_rows)
        (poll_logs identity_texts (λ v. ok v) 5 (λ name. raise runtime_error))
    × Sends (Accepted (λ s. s) "i" 5 no_rows) (
        simulate_checkout_flow identity_texts seconds 5
          (λ k. ltb k 400)
          (answered 200 "login")
          (answered 503 "search")
          1
          2)
    × Sends (Accepted (λ s. s) "i" 5 no_rows) (
        poll_metrics naturals identity_texts metric_key 5 6
          (λ name. ok null)
          (record { name = "cpu"; config = static_config } ∷ []))
observers-Accepted_example =
    observers-Accepted (λ s. s) "i" 5 no_rows tt naturals identity_texts metric_key 5 6
      (λ url. ok (500, ok null)) (λ v. ok v) (λ name. raise runtime_error) (λ name. ok null) seconds
      (λ k. ltb k 400) (answered 200 "login") (answered 503 "search") 1 2
      (record { name = "cpu"; config = static_config } ∷ [])

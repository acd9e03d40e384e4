-- ===== src/Observer/Health.antt =====
-- `HealthObserver` (agents/observer/src/health_observer.py). `respond url` is what a request gives:
-- the status and the JSON of the response, or an exception.
use dev_ops_agent_swarm.Base.{ℕ, String, Bool, false, List, [], ◌∷◌, nat_eq, ◌||◌, if◌then◌else◌}
use dev_ops_agent_swarm.Base.Int.{pos}
use dev_ops_agent_swarm.Base.Result.{Result, ok, raise, ◌>>=◌}
use dev_ops_agent_swarm.Base.Value.{Value, null, int, str, get_or, as_dict, is_text, f_string}
use dev_ops_agent_swarm.Messaging.Client.{return, ◌>>◌}
use dev_ops_agent_swarm.Observer.Anomaly.{AnomalyResult, anomaly_result}
use dev_ops_agent_swarm.Observer.Deduplicator.{Deduplicator}
use dev_ops_agent_swarm.Observer.State.{Obs, Texts, report}

pub record Target : Type 0 where
  pub service : String
  pub url : String

abbrev pub target : String → String → Target
target service url = record { service = service; url = url }

abbrev pub targets : List Target
targets =
    target "user-svc" "http://user-svc:8001/health"
    ∷ target "auth-svc" "http://auth-svc:8004/health"
    ∷ target "order-svc" "http://order-svc:8002/health"
    ∷ target "payment-svc" "http://payment-svc:8005/health"
    ∷ target "product-svc" "http://product-svc:8003/health"
    ∷ target "search-svc" "http://search-svc:8006/health"
    ∷ target "notification-worker" "http://notification-worker:8007/health"
    ∷ target "inventory-worker" "http://inventory-worker:8008/health"
    ∷ target "analytics-worker" "http://analytics-worker:8009/health"
    ∷ []

-- the deduplicator of this observer
abbrev pub health_deduplicator : Deduplicator
health_deduplicator = record { window_seconds = 120; max_per_window = 1; seen = [] }

-- the body of the `try`
unfoldable pub healthy_response : Result (ℕ × Result Value) → Result Bool
healthy_response response = do
  (status_code, json) ← response
  (if nat_eq status_code 200
      then (do
        value ← json
        body ← as_dict value
        ok (
            is_text "ok" (get_or "status" null body)
            || is_text "healthy" (get_or "status" null body)))
      else ok false)

abbrev pub or_unhealthy : Result Bool → Bool
or_unhealthy (ok healthy) = healthy
or_unhealthy (raise _) = false

-- `_probe`, which never raises
unfoldable pub probe : Result (ℕ × Result Value) → Bool
probe response = or_unhealthy (healthy_response response)

abbrev pub probe_anomaly : Target → AnomalyResult
probe_anomaly t =
    record (anomaly_result "http_health" (str t.service) "critical" (int (pos 0)) "active_probe") {
      description = f_string (str "Active health probe failed for " ∷ str t.url ∷ []);
    }

module _ (texts : Texts) (respond : String → Result (ℕ × Result Value)) (now : ℕ) where
  -- the loop over the results, in the order of the targets
  unfoldable pub report_failed : List Target → Obs (Unit {0}) (Unit {0})
  report_failed [] = return tt
  report_failed (t ∷ ts) =
      let rest = report_failed ts in
      (if probe (respond t.url) then return tt else report texts now (probe_anomaly t)) >> rest

  unfoldable pub probe_endpoints : Obs (Unit {0}) (Unit {0})
  probe_endpoints = report_failed targets

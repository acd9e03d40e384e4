-- ===== src/Observer/Synthetic.antt =====
-- `SyntheticProber` (agents/observer/src/synthetic_prober.py). The login and the search are what their
-- requests give; `is_success` is the test of `raise_for_status`.
use dev_ops_agent_swarm.Base.{ℕ, ◌-◌, ◌*◌, String, Bool, [], ◌∷◌, nat_eq, ltb, ◌||◌, if◌then◌else◌}
use dev_ops_agent_swarm.Base.Int.{pos}
use dev_ops_agent_swarm.Base.Value.{Value, int, str, f_string}
use dev_ops_agent_swarm.Messaging.Client.{return, attempt, ◌>>=◌}
use dev_ops_agent_swarm.Messaging.Message.{second}
use dev_ops_agent_swarm.Observer.Anomaly.{AnomalyResult, anomaly_result}
use dev_ops_agent_swarm.Observer.State.{Obs, Texts, report}

-- a request: a response with its status and address, an `httpx.RequestError`, or another exception
pub data Reply : Type 0 where
  answered : ℕ → String → Reply
  unreachable : String → Reply
  failed : Reply

-- how the flow of requests ends
pub data Ending : Type 0 where
  finished : Ending
  status_error : ℕ → String → Ending
  request_error : String → Ending
  other_error : Ending

-- a number of microseconds as a number of seconds, and with two digits
pub record Seconds : Type 0 where
  pub number : ℕ → Value
  pub two_digits : ℕ → Value

module _ (is_success : ℕ → Bool) where
  -- `resp.raise_for_status()`, and what follows it
  abbrev pub checked : Reply → Ending → Ending
  checked (answered status url) next = if is_success status then next else status_error status url
  checked (unreachable url) next = request_error url
  checked failed next = other_error

  -- the login, of which 401 and 404 are accepted
  abbrev pub logged_in : Reply → Ending → Ending
  logged_in (answered status url) next =
      if nat_eq status 200 || (nat_eq status 401 || nat_eq status 404)
      then next
      else checked (answered status url) next
  logged_in (unreachable url) next = request_error url
  logged_in failed next = other_error

  unfoldable pub checkout_flow : Reply → Reply → Ending
  checkout_flow login search = logged_in login (checked search finished)

abbrev pub flow_anomaly : String → Value → Value → AnomalyResult
flow_anomaly category value description =
    record (anomaly_result "e2e_checkout" (str "api-gateway") "critical" value "synthetic_probe") {
      category = str category;
      description = description;
    }

module _ (texts : Texts) (seconds : Seconds) (now : ℕ) where
  -- `_publish_failure`
  unfoldable pub publish_failure : String → Value → Value → Obs (Unit {0}) (Unit {0})
  publish_failure category value description =
      report texts now (flow_anomaly category value description)

  abbrev pub slow_flow : ℕ → Obs (Unit {0}) (Unit {0})
  slow_flow duration =
      if ltb (5 * second) duration
      then publish_failure "LatencySpike" (seconds.number duration)
          (f_string (str "Checkout flow took " ∷ seconds.two_digits duration ∷ str "s" ∷ []))
      else return tt

  -- what follows the flow: the report of a long one stands inside the `try`, the others in its
  -- handlers
  unfoldable pub concluded : ℕ → Ending → Obs (Unit {0}) (Unit {0})
  concluded duration finished = do _ ← attempt (slow_flow duration); return tt
  concluded duration (status_error status url) =
      publish_failure "HttpError" (int (pos 0))
        (f_string (str "Checkout flow failed: " ∷ int (pos status) ∷ str " " ∷ str url ∷ []))
  concluded duration (request_error url) =
      publish_failure "ConnectionError" (int (pos 0))
        (f_string (str "Checkout flow connection failed: " ∷ str url ∷ []))
  concluded duration other_error = return tt

  unfoldable pub simulate_checkout_flow :
      (ℕ → Bool) → Reply → Reply → ℕ → ℕ → Obs (Unit {0}) (Unit {0})
  simulate_checkout_flow is_success login search start_time end_time =
      concluded (end_time - start_time) (checkout_flow is_success login search)

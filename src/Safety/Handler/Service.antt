-- ===== src/Safety/Handler/Service.antt =====
-- What any requests leave in the safety agent's limiter.
use dev_ops_agent_swarm.Base.{ℕ, ◌≡◌, refl, sym, subst, String, List, [], ◌∷◌}
use dev_ops_agent_swarm.Base.Int.{ℤ}
use dev_ops_agent_swarm.Base.Result.{Result, ok, raise}
use dev_ops_agent_swarm.Base.Value.{Value, Fields, end, dict, get_or}
use dev_ops_agent_swarm.Messaging.Client.{World, deliver, world}
use dev_ops_agent_swarm.Messaging.Delivery.{deliver-Keeps}
use dev_ops_agent_swarm.Messaging.Keeps.{Keeps, Keeps->>=, Keeps-lift_ok, Keeps-publish}
use dev_ops_agent_swarm.Messaging.Message.{Message}
use dev_ops_agent_swarm.Messaging.Subjects.{safety_decisions}
use dev_ops_agent_swarm.Safety.Agent.{evaluate_action}
use dev_ops_agent_swarm.Safety.Agent.Reviews.{evaluate_action-IsPaced}
use dev_ops_agent_swarm.Safety.BlastRadius.{Blast, calculate}
use dev_ops_agent_swarm.Safety.Handler.{
  decision_message, publish_decision, checked, left_by_failure, concluded, evaluated,
  handle_review_request,
}
use dev_ops_agent_swarm.Safety.RateLimiter.{Limiter, Verdict, check_by}
use dev_ops_agent_swarm.Safety.RateLimiter.Spacing.{IsPaced, prune-IsPaced, check_by-eq-ok}

-- a request under way: its time, what the clock's expression gives, and the message
abbrev pub Request : Type 0
Request = ℕ × Result ℕ × Message

module _ (sha256 : String → String) (show : Value → Value → String) (to_int : Value → Result ℤ)
    (ancestors : String → List String) where
  check_by-IsPaced :
      (clock : Result ℕ) (action : Fields) (l : Limiter) (r : Result (Limiter × Verdict))
      → check_by sha256 show clock action l ≡ r
      → IsPaced l
      → IsPaced (checked l r)
  check_by-IsPaced clock action l (raise _) e v = v
  check_by-IsPaced clock action l (ok (l', verdict)) e v =
      let (fp, now, found, read, kept, judged) = check_by-eq-ok sha256 show clock action l e in
      subst IsPaced (sym kept) (prune-IsPaced now l v)

  left_by_failure-IsPaced :
      (clock : Result ℕ) (action : Fields) (l : Limiter) (b : Result Blast)
      → IsPaced l
      → IsPaced (left_by_failure sha256 show to_int ancestors clock action l b)
  left_by_failure-IsPaced clock action l (ok _) v = check_by-IsPaced clock action l _ refl v
  left_by_failure-IsPaced clock action l (raise _) v = v

  concluded-IsPaced :
      (clock : Result ℕ) (id : String) (diagnosis : Value) (action : Fields) (w : World Limiter)
      (r : Result (Limiter × Fields))
      → evaluate_action sha256 show to_int ancestors clock id diagnosis action w.agent ≡ r
      → IsPaced w.agent
      → IsPaced (world (concluded sha256 show to_int ancestors clock w action r)).agent
  concluded-IsPaced clock id diagnosis action w (ok (l', d)) e v =
      evaluate_action-IsPaced sha256 show to_int ancestors clock id diagnosis action w.agent v e
  concluded-IsPaced clock id diagnosis action w (raise _) e v =
      left_by_failure-IsPaced clock action w.agent (calculate ancestors action) v

  handle_review_request-Keeps :
      (clock : Result ℕ) (now : ℕ) (request : Message)
      → Keeps IsPaced (handle_review_request sha256 show to_int ancestors clock now request)
  unfolding handle_review_request evaluated publish_decision
  handle_review_request-Keeps clock now request = Keeps-lift_ok λ action _.
      Keeps->>=
        (record {
          keeps = λ w v.
              concluded-IsPaced clock request.correlation_id
                (get_or "diagnosis" (dict end) request.payload) action w _ refl v;
        })
        (λ decision. Keeps-publish safety_decisions (decision_message now request decision))

  -- the agent after some deliveries of requests
  abbrev pub serve_all : List Request → World Limiter → World Limiter
  serve_all [] w = w
  serve_all ((now, clock, msg) ∷ rest) w =
      serve_all rest
        (deliver now (handle_review_request sha256 show to_int ancestors clock now) msg w).1

  -- Whatever requests reach a safety agent whose limiter is paced, at any times, with any payloads
  -- and any refusals of the bus, also where a review raises: the limiter stays paced.
  pub serve_all-IsPaced :
      (requests : List Request) (w : World Limiter)
      → IsPaced w.agent
      → IsPaced (serve_all requests w).agent
  serve_all-IsPaced [] w v = v
  serve_all-IsPaced ((now, clock, msg) ∷ rest) w v = serve_all-IsPaced rest _ (
      deliver-Keeps now (handle_review_request sha256 show to_int ancestors clock now) msg w
        (handle_review_request-Keeps clock now msg) v)

-- ===== src/Safety/Handler/Silent.antt =====
-- What the safety agent makes of requests with the clock of its rate limiter's module.
use dev_ops_agent_swarm.Base.{
  ℕ, ◌≡◌, refl, ◌∙◌, ap, String, List, [], ◌∷◌, All, Bool-cases, inl, inr, if◌then◌else◌,
}
use dev_ops_agent_swarm.Base.Int.{ℤ}
use dev_ops_agent_swarm.Base.Result.{Result, Error, ok, raise}
use dev_ops_agent_swarm.Base.Value.{Value, Fields, end, dict, get_or, as_dict}
use dev_ops_agent_swarm.Messaging.Client.{
  World, Ack, acked, naked, Step, fail, lift, deliver, effects, ◌>>=◌,
}
use dev_ops_agent_swarm.Messaging.Healthy.{>>=_fail}
use dev_ops_agent_swarm.Messaging.Message.{Message, is_expired, utc_now}
use dev_ops_agent_swarm.Safety.Agent.Raising.{IsRaised, check-IsRaised, evaluate_action-IsRaised}
use dev_ops_agent_swarm.Safety.BlastRadius.{Blast, calculate}
use dev_ops_agent_swarm.Safety.Handler.{
  publish_decision, checked, left_by_failure, concluded, evaluated, handle_review_request,
}
use dev_ops_agent_swarm.Safety.Handler.Service.{Request, serve_all}
use dev_ops_agent_swarm.Safety.RateLimiter.{Limiter, Verdict, imported, check}

-- requests at their times, read by the clock of the rate limiter's module
abbrev pub timed : List (ℕ × Message) → List Request
timed [] = []
timed ((now, msg) ∷ rest) = (now, utc_now imported now, msg) ∷ timed rest

checked_raised : (l : Limiter) (r : Result (Limiter × Verdict)) → IsRaised r → checked l r ≡ l
checked_raised l r (e, h) = ap (checked l) h

module _ (sha256 : String → String) (show : Value → Value → String) (to_int : Value → Result ℤ)
    (ancestors : String → List String) where
  left_by_failure_kept :
      (now : ℕ) (action : Fields) (l : Limiter) (b : Result Blast)
      → left_by_failure sha256 show to_int ancestors (utc_now imported now) action l b ≡ l
  unfolding check
  left_by_failure_kept now action l (ok _) =
      checked_raised l (check sha256 show now action l) (check-IsRaised sha256 show now action l)
  left_by_failure_kept now action l (raise _) = refl

  concluded_raised :
      (now : ℕ) (action : Fields) (w : World Limiter) (r : Result (Limiter × Fields))
      → IsRaised r
      → (e : Error) × (concluded sha256 show to_int ancestors (utc_now imported now) w action r
          ≡ fail e w)
  concluded_raised now action w r (e, h) = (
    e,
    rw h (
        ap (λ l. fail e (record w { agent = l }))
          (left_by_failure_kept now action w.agent (calculate ancestors action))),
  )

  -- the agent's handler with its clock
  abbrev pub handler : ℕ → Message → World Limiter → Step Limiter (Unit {0})
  handler now = handle_review_request sha256 show to_int ancestors (utc_now imported now) now

  handler_raised :
      (now : ℕ) (msg : Message) (w : World Limiter) → (e : Error) × (handler now msg w ≡ fail e w)
  unfolding handle_review_request evaluated effects
  handler_raised now msg w = by_cases (as_dict (get_or "action" (dict end) msg.payload))
    where
      diagnosis : Value
      diagnosis = get_or "diagnosis" (dict end) msg.payload

      by_cases :
          (r : Result Fields)
          → (e : Error) × ((lift r >>= λ action.
                  evaluated sha256 show to_int ancestors (utc_now imported now) msg diagnosis action
                  >>= publish_decision now msg)
                w
              ≡ fail e w)
      by_cases (raise e) = (e, refl)
      by_cases (ok action) =
          let (e, h) = concluded_raised now action w _ (
            evaluate_action-IsRaised sha256 show to_int ancestors now msg.correlation_id diagnosis
              action w.agent) in
          (
            e,
            >>=_fail
                (evaluated sha256 show to_int ancestors (utc_now imported now) msg diagnosis action)
                (publish_decision now msg) w h,
          )

  -- how a request is answered that is expired or whose handler raises
  abbrev pub refused : ℕ → Message → Ack
  refused now msg = if is_expired now msg then acked else naked

  deliver_raised :
      (now : ℕ) (msg : Message) (w : World Limiter)
      → deliver now (handler now) msg w ≡ (refused now msg, w)
  unfolding deliver
  deliver_raised now msg w = elim (Bool-cases (is_expired now msg)) [
    | inl late ↦ rw late refl
    | inr fresh ↦ let (e, h) = handler_raised now msg w in rw (fresh, h) refl
  ]

  -- Whatever requests the safety agent is delivered, with the names that its rate limiter's module
  -- imports: each one that is not expired is refused, and nothing else comes of it. No decision is
  -- published, and the limiter and the rest of the agent's world stay as they were.
  pub serve_all_silent :
      (requests : List (ℕ × Message)) (w : World Limiter)
      → All (λ r. deliver r.0 (handler r.0) r.1 w ≡ (refused r.0 r.1, w)) requests
        × (serve_all sha256 show to_int ancestors (timed requests) w ≡ w)
  serve_all_silent [] w = (tt, refl)
  serve_all_silent ((now, msg) ∷ rest) w =
      let (each, all) = serve_all_silent rest w in
      let step = deliver_raised now msg w in
      ((step, each), ap (λ r. serve_all sha256 show to_int ancestors (timed rest) r.1) step ∙ all)

-- ===== src/Safety/Agent/Reviews.antt =====
-- What a review leaves in the limiter.
use dev_ops_agent_swarm.Base.{ℕ, ◌≡◌, sym, subst, String, List, inl, inr}
use dev_ops_agent_swarm.Base.Int.{ℤ}
use dev_ops_agent_swarm.Base.Result.{Result, ok}
use dev_ops_agent_swarm.Base.Value.{Value, Fields}
use dev_ops_agent_swarm.Safety.Agent.{evaluate_action}
use dev_ops_agent_swarm.Safety.Agent.Review.{evaluate_action-Course}
use dev_ops_agent_swarm.Safety.RateLimiter.{Limiter, judge}
use dev_ops_agent_swarm.Safety.RateLimiter.Spacing.{IsPaced, pruned, prune-IsPaced, noted-IsPaced}

module _ (sha256 : String → String) (show : Value → Value → String) (to_int : Value → Result ℤ)
    (ancestors : String → List String) where
  -- A review that returns leaves a paced limiter paced.
  pub evaluate_action-IsPaced :
      (clock : Result ℕ) (incident_id : String) (diagnosis : Value) (action : Fields) (l : Limiter)
      {l' : Limiter} {d : Fields}
      → IsPaced l
      → evaluate_action sha256 show to_int ancestors clock incident_id diagnosis action l
        ≡ ok (l', d)
      → IsPaced l'
  unfolding judge
  evaluate_action-IsPaced clock incident_id diagnosis action l {l'} {d} v e =
      elim (evaluate_action-Course sha256 show to_int ancestors clock incident_id diagnosis action l
        e) [
          | inl (_, a) ↦
              let paced = prune-IsPaced a.now l v in
              subst IsPaced (sym a.left) (
                noted-IsPaced (record { fingerprint = a.fp; timestamp = a.now; action = action })
                  (pruned a.now l) paced a.allowed)
          | inr (inl (_, a)) ↦ subst IsPaced (sym a.left) (prune-IsPaced a.now l v)
          | inr (inr (_, a)) ↦ subst IsPaced (sym a.left) (prune-IsPaced a.now l v)
        ]

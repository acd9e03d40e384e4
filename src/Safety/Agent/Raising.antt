-- ===== src/Safety/Agent/Raising.antt =====
-- How a review ends with the clock of the rate limiter's module.
use dev_ops_agent_swarm.Base.{ℕ, ◌≡◌, refl, String, List}
use dev_ops_agent_swarm.Base.Int.{ℤ}
use dev_ops_agent_swarm.Base.Result.{Result, Error, ok, raise, name_error, ◌>>=◌}
use dev_ops_agent_swarm.Base.Value.{Value, Fields}
use dev_ops_agent_swarm.Messaging.Message.{utc_now}
use dev_ops_agent_swarm.Safety.Agent.{evaluate_action}
use dev_ops_agent_swarm.Safety.BlastRadius.{calculate}
use dev_ops_agent_swarm.Safety.RateLimiter.{
  Limiter, imported, fingerprint_of, check_by, check, note_by, note,
}

-- a result that is an exception
abbrev pub IsRaised : {A : Type 0} → Result A → Type 0
IsRaised r = (e : Error) × (r ≡ raise e)

IsRaised->>= :
    {A B : Type 0} (r : Result A) (f : A → Result B)
    → ((a : A) → IsRaised (f a))
    → IsRaised (r >>= f)
IsRaised->>= (ok a) f h = h a
IsRaised->>= (raise e) f h = (e, refl)

>>=-IsRaised : {A B : Type 0} (r : Result A) (f : A → Result B) → IsRaised r → IsRaised (r >>= f)
>>=-IsRaised r f (e, h) = (e, rw h refl)

module _ (sha256 : String → String) (show : Value → Value → String) where
  -- No check returns: the clock's expression raises, if nothing did before it.
  pub check-IsRaised :
      (now : ℕ) (action : Fields) (l : Limiter) → IsRaised (check sha256 show now action l)
  unfolding check check_by utc_now
  check-IsRaised now action l =
      IsRaised->>= (fingerprint_of sha256 show action) _ λ fp. (name_error, refl)

  -- No record returns either.
  pub note-IsRaised :
      (now : ℕ) (action : Fields) (l : Limiter) → IsRaised (note sha256 show now action l)
  unfolding note note_by utc_now
  note-IsRaised now action l =
      IsRaised->>= (fingerprint_of sha256 show action) _ λ fp. (name_error, refl)

  module _ (to_int : Value → Result ℤ) (ancestors : String → List String) where
    pub evaluate_action-IsRaised :
        (now : ℕ) (incident_id : String) (diagnosis : Value) (action : Fields) (l : Limiter)
        → IsRaised (
            evaluate_action sha256 show to_int ancestors
              (utc_now imported now)
              incident_id
              diagnosis
              action
              l)
    unfolding evaluate_action check
    evaluate_action-IsRaised now incident_id diagnosis action l =
        IsRaised->>= (calculate ancestors action) _
          λ blast. >>=-IsRaised (check sha256 show now action l) _ (check-IsRaised now action l)

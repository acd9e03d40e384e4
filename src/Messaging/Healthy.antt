-- ===== src/Messaging/Healthy.antt =====
-- Computations that return, or raise, and a bus that refuses nothing.
use dev_ops_agent_swarm.Base.{◌≡◌, ◌⊎◌, inl, inr, refl, ap, String, true, []}
use dev_ops_agent_swarm.Base.Result.{Result, Error, ok, raise}
use dev_ops_agent_swarm.Messaging.Client.{
  M, ◌>>◌, ◌>>=◌, World, Step, done, fail, publish, publish_at, attempts, attempt, effects, sent,
}
use dev_ops_agent_swarm.Messaging.Message.{Message}

module _ {S : Type 0} where
  pub publish_healthy :
      (subject : String) (msg : Message) (w : World S)
      → w.bus.connected ≡ true
      → w.bus.refusals ≡ []
      → publish subject msg w ≡ done tt (record w { bus = sent w.bus [] subject msg })
  unfolding publish publish_at attempts
  publish_healthy subject msg w c r = rw (c, r) refl

  -- a computation that returns is followed by what comes next
  pub >>_done :
      {A B : Type 0} (m : M S A) (k : M S B) (w : World S) {a : A} {w' : World S}
      → m w ≡ done a w'
      → (m >> k) w ≡ k w'
  unfolding effects
  >>_done {B = B} m k w e =
      ap (λ r. elim r as (λ _. Step S B) [ done _ v ↦ k v | fail x v ↦ fail x v ]) e

  -- a computation that returns hands its value to what comes next
  pub >>=_done :
      {A B : Type 0} (m : M S A) (k : A → M S B) (w : World S) {a : A} {w' : World S}
      → m w ≡ done a w'
      → (m >>= k) w ≡ k a w'
  unfolding effects
  >>=_done {B = B} m k w e =
      ap (λ r. elim r as (λ _. Step S B) [ done a v ↦ k a v | fail x v ↦ fail x v ]) e

  -- nothing follows a computation that raised
  pub >>=_fail :
      {A B : Type 0} (m : M S A) (k : A → M S B) (w : World S) {e : Error} {w' : World S}
      → m w ≡ fail e w'
      → (m >>= k) w ≡ fail e w'
  unfolding effects
  >>=_fail {B = B} m k w h =
      ap (λ r. elim r as (λ _. Step S B) [ done a v ↦ k a v | fail x v ↦ fail x v ]) h

  -- what a computation raised is caught
  pub attempt_fail :
      {A : Type 0} (m : M S A) (w : World S) {e : Error} {w' : World S}
      → m w ≡ fail e w'
      → attempt m w ≡ done (raise e) w'
  unfolding effects
  attempt_fail {A = A} m w h =
      ap
        (λ r. elim r as (λ _. Step S (Result A)) [
          | done a v ↦ done (ok a) v
          | fail x v ↦ done (raise x) v
        ])
        h

  pub attempt_done :
      {A : Type 0} (m : M S A) (w : World S) {a : A} {w' : World S}
      → m w ≡ done a w'
      → attempt m w ≡ done (ok a) w'
  unfolding effects
  attempt_done {A = A} m w h =
      ap
        (λ r. elim r as (λ _. Step S (Result A)) [
          | done a v ↦ done (ok a) v
          | fail x v ↦ done (raise x) v
        ])
        h

  pub Step-cases :
      {A : Type 0} (r : Step S A)
      → ((a : A) × (w : World S) × (r ≡ done a w)) ⊎ ((e : Error) × (w : World S) × (r ≡ fail e w))
  Step-cases (done a w) = inl (a, w, refl)
  Step-cases (fail e w) = inr (e, w, refl)

-- ===== src/Orchestrator/Fsm/Timeout.antt =====
-- When a machine times out, and what a retry changes.
use dev_ops_agent_swarm.Base.{
  ℕ, ◌+◌, ◌*◌, ◌≤◌, ◌<◌, ◌≡◌, ◌↔◌, refl, true, false, some, none, arith, Option, ltb, ltb→lt,
}
use dev_ops_agent_swarm.Messaging.Message.{second}
use dev_ops_agent_swarm.Orchestrator.Fsm.{
  Fsm, state_timeout, is_timed_out, should_retry, increment_retry, is_terminal,
  max_retries_per_state,
}

timed_out_cases :
    (now entered : ℕ) (limit : Option ℕ)
    → (elim limit [ none ↦ false | some timeout ↦ ltb (entered + timeout * second) now ]) ≡ true
    → (n : ℕ) × (limit ≡ some n) × (entered + n * second < now)
timed_out_cases now entered none h = cc
timed_out_cases now entered (some n) h = (n, refl, ltb→lt _ _ h)

-- A machine is timed out exactly when its state has a timeout that passed. Terminal states have none.
pub is_timed_out_iff :
    (now : ℕ) (f : Fsm)
    → ((is_timed_out now f ≡ true)
        ↔ ((n : ℕ) × (state_timeout f.state ≡ some n) × (f.state_entered_at + n * second < now)))
      × ((is_terminal f ≡ true) ↔ (state_timeout f.state ≡ none))
unfolding is_timed_out is_terminal
is_timed_out_iff now f = (
  (timed_out_cases now f.state_entered_at (state_timeout f.state), λ (n, e, late). ground arith),
  (λ e. ground arith, λ e. ground arith),
)

-- A retry counts up, keeps the state, and gives the state its time anew: for two minutes the
-- machine does not time out.
pub is_timed_out-increment_retry :
    (now later : ℕ) (f : Fsm)
    → later ≤ now + 120 * second
    → (is_timed_out later (increment_retry now f) ≡ false)
      × ((increment_retry now f).state ≡ f.state)
      × ((should_retry f ≡ true) ↔ ((increment_retry now f).retry_count ≤ max_retries_per_state))
unfolding is_timed_out increment_retry should_retry
is_timed_out-increment_retry now later f h =
    (ground arith, refl, (λ e. ground arith, λ e. ground arith))

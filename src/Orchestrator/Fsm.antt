-- ===== src/Orchestrator/Fsm.antt =====
-- `IncidentFSM` (agents/orchestrator/src/incident_fsm.py). Times are microseconds; a method that
-- reads the clock takes the reading as its argument `now`.
pub mod Graph
pub mod History
pub mod Timeout
use dev_ops_agent_swarm.Base.{
  ℕ, suc, ◌+◌, ◌*◌, String, Bool, true, false, List, [], ◌∷◌, ◌++◌, Option, none, some, any, ltb,
  if◌then◌else◌, ◌==◌,
}
use dev_ops_agent_swarm.Base.Result.{Result, ok, raise, value_error}
use dev_ops_agent_swarm.Messaging.Message.{second}

pub data State : Type 0 where
  detecting diagnosing proposing_remediation safety_review : State
  executing verifying resolved closed : State

-- `STATES`: the texts that the states stand for
abbrev pub name : State → String
name detecting = "detecting"
name diagnosing = "diagnosing"
name proposing_remediation = "proposing_remediation"
name safety_review = "safety_review"
name executing = "executing"
name verifying = "verifying"
name resolved = "resolved"
name closed = "closed"

abbrev pub states : List State
states =
    detecting ∷ diagnosing ∷ proposing_remediation ∷ safety_review ∷ executing ∷ verifying
    ∷ resolved ∷ closed ∷ []

abbrev pub find_name : String → List State → Option State
find_name s [] = none
find_name s (t ∷ ts) = let rest = find_name s ts in if name t == s then some t else rest

-- the state that a text names
unfoldable pub of_name : String → Option State
of_name s = find_name s states

-- `==` on states
abbrev pub state_eq : State → State → Bool
state_eq detecting detecting = true
state_eq diagnosing diagnosing = true
state_eq proposing_remediation proposing_remediation = true
state_eq safety_review safety_review = true
state_eq executing executing = true
state_eq verifying verifying = true
state_eq resolved resolved = true
state_eq closed closed = true
state_eq _ _ = false

-- `TRANSITIONS`
unfoldable pub transitions : State → List State
transitions detecting = diagnosing ∷ []
transitions diagnosing = proposing_remediation ∷ []
transitions proposing_remediation = safety_review ∷ []
transitions safety_review = executing ∷ proposing_remediation ∷ []
transitions executing = verifying ∷ proposing_remediation ∷ []
transitions verifying = resolved ∷ executing ∷ []
transitions resolved = closed ∷ []
transitions closed = []

-- `STATE_TIMEOUTS.get(state)`, in seconds
unfoldable pub state_timeout : State → Option ℕ
state_timeout detecting = some 120
state_timeout diagnosing = some 180
state_timeout proposing_remediation = some 120
state_timeout safety_review = some 300
state_timeout executing = some 180
state_timeout verifying = some 120
state_timeout resolved = none
state_timeout closed = none

abbrev pub max_retries_per_state : ℕ
max_retries_per_state = 2

-- an entry of `self.history`
pub record Change : Type 0 where
  pub source : State
  pub target : State
  pub at : ℕ

pub record Fsm : Type 0 where
  pub incident_id : String
  pub state : State
  pub state_entered_at : ℕ
  pub retry_count : ℕ
  pub history : List Change

-- `state_entered_at or now`
abbrev pub entered_or : Option ℕ → ℕ → ℕ
entered_or none now = now
entered_or (some t) now = t

-- `__init__`, with the default `retry_count=0`
unfoldable pub init : String → String → Option ℕ → ℕ → Result Fsm
init incident_id initial_state entered now = elim (of_name initial_state) [
  | none ↦ raise value_error
  | some s ↦ ok (record {
    incident_id = incident_id;
    state = s;
    state_entered_at = entered_or entered now;
    retry_count = 0;
    history = [];
  })
]

unfoldable pub can_transition : Fsm → State → Bool
unfolding transitions
can_transition f target = any (state_eq target) (transitions f.state)

-- the machine after a transition that is allowed
unfoldable pub move : ℕ → State → Fsm → Fsm
move now target f = record f {
  state = target;
  state_entered_at = now;
  retry_count = 0;
  history = f.history ++ record { source = f.state; target = target; at = now } ∷ [];
}

unfoldable pub transition : ℕ → State → Fsm → Result Fsm
unfolding can_transition move
transition now target f =
    if can_transition f target then ok (move now target f) else raise value_error

unfoldable pub is_timed_out : ℕ → Fsm → Bool
unfolding state_timeout
is_timed_out now f = elim (state_timeout f.state) [
  | none ↦ false
  | some timeout ↦ ltb (f.state_entered_at + timeout * second) now
]

unfoldable pub should_retry : Fsm → Bool
should_retry f = ltb f.retry_count max_retries_per_state

-- the returned count is the new `retry_count`
unfoldable pub increment_retry : ℕ → Fsm → Fsm
increment_retry now f = record f { retry_count = f.retry_count + 1; state_entered_at = now }

unfoldable pub is_terminal : Fsm → Bool
is_terminal f = any (state_eq f.state) (resolved ∷ closed ∷ [])

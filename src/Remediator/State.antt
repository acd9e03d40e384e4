-- ===== src/Remediator/State.antt =====
-- The fields of `RemediatorAgent` (agents/remediator/src/main.py), and what it has asked of Docker
-- and of the services.
use dev_ops_agent_swarm.Base.{ℕ, ◌+◌, String, List, [], ◌∷◌, ◌++◌, Option, Dict}
use dev_ops_agent_swarm.Base.Result.{Result, Error}
use dev_ops_agent_swarm.Base.Value.{Fields}
use dev_ops_agent_swarm.Messaging.Client.{M, done, modify}

-- an entry of `active_remediations`
pub record Remediation : Type 0 where
  pub diagnosis : Fields
  pub runbook : Fields
  pub action : Fields

-- `restarted` holds the containers whose `restart` was called, in order. `calls` counts the calls
-- of Docker and of the HTTP client, which answer by that number.
pub record Remediator : Type 0 where
  pub runbooks : List Fields
  pub active_remediations : Dict Remediation
  pub restarted : List String
  pub calls : ℕ

abbrev pub R : Type 0 → Type 0
R = M Remediator

-- Docker's client: what the call of a number answers
pub record Docker : Type 0 where
  pub containers : ℕ → Result (List String)
  pub restart : ℕ → String → Result (Unit {0})

-- What answers from outside: Docker, where its socket could be reached, the HTTP client, which gives
-- the status of a response, and `str` of an exception.
pub record Outside : Type 0 where
  pub docker : Option Docker
  pub http_get : ℕ → String → Result ℕ
  pub text_of : Error → String

-- the number of the next call
unfoldable pub next_call : R ℕ
next_call w =
    done w.agent.calls (record w { agent = record (w.agent) { calls = w.agent.calls + 1 } })

unfoldable pub mark_restarted : String → R (Unit {0})
mark_restarted name = modify λ s. record s { restarted = s.restarted ++ name ∷ [] }

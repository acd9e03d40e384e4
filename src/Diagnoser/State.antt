-- ===== src/Diagnoser/State.antt =====
-- The fields of `RCAEngine` (agents/diagnoser/src/rca_engine.py), and the tables that it alone writes
-- while it handles a message.
use dev_ops_agent_swarm.Base.{ℕ, String, Bool, true, false, List}
use dev_ops_agent_swarm.Base.Int.{ℤ}
use dev_ops_agent_swarm.Base.Result.{Result, ok, raise, db_error}
use dev_ops_agent_swarm.Base.Value.{Value, Fields}
use dev_ops_agent_swarm.Diagnoser.Context.{Telemetry}
use dev_ops_agent_swarm.Diagnoser.Correlation.{Tables}
use dev_ops_agent_swarm.Diagnoser.Hypothesis.{Backend}
use dev_ops_agent_swarm.Orchestrator.State.{refused, later_answers}
use dev_ops_agent_swarm.Messaging.Client.{M, World, Step, done, fail}

-- `db_refusals` says of each coming database session
-- whether it raises; once the list is empty every session commits.
pub record Diagnoser : Type 0 where
  pub agent_id : String
  pub messages_processed : ℕ
  pub errors : ℕ
  pub tables : Tables
  pub db_refusals : List Bool

abbrev pub D : Type 0 → Type 0
D = M Diagnoser

-- What answers from outside: the language model's reply to the call of a number on a context, the
-- telemetry, and what the functions of Python's library compute on texts, values and exceptions.
pub record Outside : Type 0 where
  pub backend : Backend
  pub reply : ℕ → Fields → Result Value
  pub telemetry : Telemetry
  pub to_int : Value → Result ℤ
  pub rounded : ℕ → ℕ → ℕ → ℕ
  pub words : Value → List String
  pub lower : String → String
  pub mentions : String → Value → Bool

-- the fields when a session has begun
abbrev pub begun : Diagnoser → Diagnoser
begun s = record s { db_refusals = later_answers s.db_refusals }

-- how a session ends: a refusal and a body that raises roll back
abbrev pub conclude :
    {A : Type 0} → World Diagnoser → Diagnoser → Bool → Result (A × Tables) → Step Diagnoser A
conclude w s true _ = fail db_error (record w { agent = s })
conclude w s false (ok (a, t)) = done a (record w { agent = record s { tables = t } })
conclude w s false (raise e) = fail e (record w { agent = s })

-- `async with get_session() as session:` around a body that reads and changes the tables, or raises
unfoldable pub session : {A : Type 0} → (Tables → Result (A × Tables)) → D A
session f w = conclude w (begun w.agent) (refused w.agent.db_refusals) (f (begun w.agent).tables)

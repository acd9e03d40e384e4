-- ===== src/BaseAgent.antt =====
-- `BaseAgent` (shared/agents/base.py): its heartbeat and its main loop. `number` gives the seconds of a
-- number of microseconds, and `isoformat` the text of a time.
pub mod Registered
pub mod Rounds
use dev_ops_agent_swarm.Base.{
  ℕ, ◌+◌, ◌-◌, ◌*◌, String, Bool, true, false, not, List, [], ◌∷◌, Option, none, some,
  if◌then◌else◌,
}
use dev_ops_agent_swarm.Base.Int.{pos}
use dev_ops_agent_swarm.Base.Result.{Error, Result, ok, raise, runtime_error}
use dev_ops_agent_swarm.Base.Value.{Value, Fields, end, field, int, str}
use dev_ops_agent_swarm.Messaging.Client.{
  World, M, Connection, connect, close, get_agent, modify, return, attempt, match_result, build,
  publish, done, fail, ◌>>=◌, ◌>>◌,
}
use dev_ops_agent_swarm.Messaging.Message.{Draft}
use dev_ops_agent_swarm.Messaging.Subjects.{agent_heartbeat}

-- `own` holds the fields of the subclass
pub record Agent (Own : Type 0) : Type 0 where
  pub agent_id : String
  pub agent_type : String
  pub hostname : String
  pub heartbeat_interval : ℕ
  pub start_time : ℕ
  pub running : Bool
  pub messages_processed : ℕ
  pub errors : ℕ
  pub own : Own

module _ {Own : Type 0} where
  module _ (number : ℕ → Value) (isoformat : ℕ → String) where
    abbrev pub heartbeat_payload : ℕ → Agent Own → Fields
    heartbeat_payload now s = field "agent_id" (str s.agent_id) (
        field "agent_type" (str s.agent_type) (
          field "hostname" (str s.hostname) (
            field "status" (str "healthy") (
              field "uptime_seconds" (number (now - s.start_time)) (
                field "messages_processed" (int (pos s.messages_processed)) (
                  field "errors" (int (pos s.errors))
                    (field "timestamp" (str (isoformat now)) end)))))))

    abbrev pub heartbeat_draft : ℕ → Agent Own → Draft
    heartbeat_draft now s = record {
      source_agent = s.agent_id;
      target_agent = "orchestrator";
      message_type = "heartbeat";
      payload = heartbeat_payload now s;
      correlation_id = none;
      context = none;
      priority = 3;
      ttl_seconds = s.heartbeat_interval * 3;
    }

    unfoldable pub publish_heartbeat : ℕ → M (Agent Own) (Unit {0})
    publish_heartbeat now = do
      s ← get_agent
      msg ← build (heartbeat_draft now s)
      publish agent_heartbeat msg

    -- the body of `_heartbeat_loop`, while the agent runs
    unfoldable pub heartbeat_round : ℕ → M (Agent Own) (Unit {0})
    heartbeat_round now = do _ ← attempt (publish_heartbeat now); return tt

  unfoldable pub increment_errors : ℕ → M (Agent Own) (Unit {0})
  increment_errors count = modify λ s. record s { errors = s.errors + count }

  unfoldable pub stop : M (Agent Own) (Unit {0})
  stop = modify λ s. record s { running = false }

  unfoldable pub begin_running : M (Agent Own) (Unit {0})
  begin_running = modify λ s. record s { running = true }

  -- one call of `run_loop` in its `try`, with `self._errors += 1`
  unfoldable pub run_once : M (Agent Own) (Unit {0}) → M (Agent Own) (Unit {0})
  run_once run_loop = do
    outcome ← attempt run_loop
    match_result outcome (λ _. increment_errors 1) return

  -- `while self._running`, as far as some calls of `run_loop` take it: whether it has been left. It
  -- is left only where `running` is false, and the calls that come after that are not made.
  unfoldable pub run_rounds : List (M (Agent Own) (Unit {0})) → M (Agent Own) Bool
  run_rounds [] = do s ← get_agent; return (not s.running)
  run_rounds (run_loop ∷ rest) =
      let later = run_rounds rest in
      do s ← get_agent; (if s.running then (do run_once run_loop; later) else return true)

  -- `start`, as far as some calls of `run_loop` take it: its `finally` is reached only where the loop
  -- has been left, for no exception of `run_loop` gets out of it
  unfoldable pub start :
      Connection
      → M (Agent Own) (Unit {0})
      → List (M (Agent Own) (Unit {0}))
      → M (Agent Own) (Unit {0})
      → M (Agent Own) (Unit {0})
  start connection setup rounds teardown = do
    connect connection
    setup
    begin_running
    over ← run_rounds rounds
    (if over then (do teardown; close) else return tt)

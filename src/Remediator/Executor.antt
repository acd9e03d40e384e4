-- ===== src/Remediator/Executor.antt =====
-- `ActionExecutor` (agents/remediator/src/action_executor.py) and `RollbackManager`
-- (agents/remediator/src/rollback_manager.py). An answer is whether it went well, and the reason.
use dev_ops_agent_swarm.Base.{
  String, Bool, true, false, not, List, [], ◌∷◌, Option, none, some, if◌then◌else◌,
}
use dev_ops_agent_swarm.Base.Result.{Result, Error, ok, raise, docker_error, type_error}
use dev_ops_agent_swarm.Base.Text.{contains}
use dev_ops_agent_swarm.Base.Value.{
  Value, Fields, end, null, str, dict, get_or, as_dict, is_text, truthy, f_string,
}
use dev_ops_agent_swarm.Messaging.Client.{
  lift, return, attempt, match_option, match_result, ◌>>=◌, ◌>>◌,
}
use dev_ops_agent_swarm.Remediator.State.{R, Docker, Outside, next_call, mark_restarted}

abbrev pub Answer : Type 0
Answer = Bool × Value

-- `container_name in c.name` wants a text
abbrev pub named : Value → String → Result Bool
named (str s) name = ok (contains s name)
named _ name = raise type_error

-- the answer at one container, and what the later ones give
abbrev pub found_at : String → Result Bool → Result (Option String) → Result (Option String)
found_at c (raise e) later = raise e
found_at c (ok true) later = ok (some c)
found_at c (ok false) later = later

-- the loop over the containers: the first whose name has `container_name` in it
unfoldable pub find_container : Value → List String → Result (Option String)
find_container container_name [] = ok none
find_container container_name (c ∷ rest) =
    found_at c (named container_name c) (find_container container_name rest)

unfoldable pub restart_with : Docker → Value → R Answer
restart_with d container_name = do
  n ← next_call
  containers ← lift (d.containers n)
  target ← lift (find_container container_name containers)
  match_option target
      (return
        (false, f_string (str "Container matching '" ∷ container_name ∷ str "' not found" ∷ [])))
      λ name. do
        m ← next_call
        mark_restarted name
        lift (d.restart m name)
        return (true, f_string (str "Successfully restarted container '" ∷ str name ∷ str "'" ∷ []))

-- `except docker.errors.APIError`; other exceptions go on
unfoldable pub api_error : Outside → Error → R Answer
api_error o docker_error =
    return (false, f_string (str "Docker API error: " ∷ str (o.text_of docker_error) ∷ []))
api_error o e = lift (raise e)

unfoldable pub restart_container : Outside → Value → R Answer
restart_container o container_name =
    if not (truthy container_name)
    then return (false, str "Missing target container name")
    else match_option o.docker (return (true, str "Executed in dummy mode"))
        λ d. do r ← attempt (restart_with d container_name); match_result r (api_error o) return

-- the body of the `try` in `execute`
unfoldable pub execute_body : Outside → Value → R Answer
execute_body o action = do
  fields ← lift (as_dict action)
  (if is_text "container_restart" (get_or "type" null fields)
      then (do
        params ← lift (as_dict (get_or "params" (dict end) fields))
        restart_container o (get_or "target" null params))
      else if is_text "circuit_breaker" (get_or "type" null fields)
      then (do
        _ ← lift (as_dict (get_or "params" (dict end) fields))
        return (true, str "Successfully opened circuit breaker (mocked)"))
      else return (false, f_string (str "Unknown action type: " ∷ get_or "type" null fields ∷ [])))

unfoldable pub execute : Outside → Value → R Answer
execute o action = do
  r ← attempt (execute_body o action)
  match_result r (λ e. return (false, str (o.text_of e))) return

-- whether a rollback is defined and went well
unfoldable pub rollback : Outside → Fields → R Bool
rollback o action =
    if truthy (get_or "rollback" null action)
    then (do (went_well, _) ← execute o (get_or "rollback" null action); return went_well)
    else return false

-- ===== src/Remediator/Verification.antt =====
-- `VerificationEngine` (agents/remediator/src/verification_engine.py).
use dev_ops_agent_swarm.Base.{
  ℕ, String, true, false, List, [], ◌∷◌, Option, none, some, if◌then◌else◌,
}
use dev_ops_agent_swarm.Base.Compare.{value_eq, number}
use dev_ops_agent_swarm.Base.Int.{ℤ, pos}
use dev_ops_agent_swarm.Base.Iteration.{iterated}
use dev_ops_agent_swarm.Base.Result.{Result, ok, raise, attribute_error, type_error}
use dev_ops_agent_swarm.Base.Value.{
  Value, nil, Fields, end, null, int, str, list, dict, get_or, as_dict, is_text, truthy, f_string,
}
use dev_ops_agent_swarm.Messaging.Client.{lift, return, ◌>>=◌}
use dev_ops_agent_swarm.Remediator.Executor.{Answer}
use dev_ops_agent_swarm.Remediator.Runbooks.{replaced_by}
use dev_ops_agent_swarm.Remediator.State.{R, Outside, next_call}

-- `asyncio.sleep` wants a number
abbrev pub slept : Option ℤ → Result (Unit {0})
slept none = raise type_error
slept (some _) = ok tt

-- the receiver of `.replace` must be a text
abbrev pub replaced_in : Value → Value → Result String
replaced_in (str s) service = replaced_by s service
replaced_in _ service = raise attribute_error

-- the answer to a response, or to an exception of the client
unfoldable pub judge_response : Outside → Value → Result ℕ → Answer
judge_response o expected (ok status) =
    if value_eq (int (pos status)) expected then (true, str "Endpoint healthy") else (
      false,
      f_string (str "Endpoint returned " ∷ int (pos status) ∷ str ", expected " ∷ expected ∷ []),
    )
judge_response o expected (raise e) =
    (false, f_string (str "Endpoint unreachable: " ∷ str (o.text_of e) ∷ []))

unfoldable pub health_check : Outside → Fields → Fields → R Answer
health_check o check diagnosis = do
  rc ← lift (as_dict (get_or "root_cause" (dict end) diagnosis))
  endpoint ← lift (replaced_in (get_or "endpoint" (str "") check) (get_or "service" (str "") rc))
  n ← next_call
  return (judge_response o (get_or "expected_status" (int (pos 200)) check) (o.http_get n endpoint))

-- `_run_check`
unfoldable pub run_check : Outside → Value → Fields → R Answer
run_check o check diagnosis = do
  fields ← lift (as_dict check)
  (if is_text "health_check" (get_or "type" null fields)
      then health_check o fields diagnosis
      else if is_text "metric" (get_or "type" null fields)
      then return (true, str "Metric check mocked to success")
      else return (false, f_string (str "Unknown check type " ∷ get_or "type" null fields ∷ [])))

-- the loop of `verify`: the first check that fails ends it
unfoldable pub run_checks : Outside → List Value → Fields → R Answer
run_checks o [] diagnosis = return (true, str "All verification checks passed")
run_checks o (check ∷ rest) diagnosis =
    let later = run_checks o rest diagnosis in
    do
      (passed, reason) ← run_check o check diagnosis
      (if passed
          then later
          else return (false, f_string (str "Verification failed: " ∷ reason ∷ [])))

unfoldable pub verify : Outside → Fields → Fields → R Answer
verify o runbook diagnosis =
    if truthy (get_or "verification" null runbook)
    then (do
      verification ← lift (as_dict (get_or "verification" null runbook))
      _ ← lift (slept (number (get_or "wait_seconds" (int (pos 5)) verification)))
      checks ← lift (iterated (get_or "checks" (list nil) verification))
      run_checks o checks diagnosis)
    else return (true, str "No verification required")

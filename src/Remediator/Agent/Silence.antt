-- ===== src/Remediator/Agent/Silence.antt =====
-- What the parts of the remediator leave alone.
use dev_ops_agent_swarm.Base.{ℕ, refl, String, List, [], ◌∷◌}
use dev_ops_agent_swarm.Base.Result.{Error, docker_error}
use dev_ops_agent_swarm.Base.Value.{Value, Fields, is_text, get_or, null}
use dev_ops_agent_swarm.Messaging.Client.{World, Bus}
use dev_ops_agent_swarm.Messaging.Frame.{
  Frames, Frames->>=, Frames->>, Frames-return, Frames-modify, Frames-lift, Frames-match_option,
  Frames-match_result, Frames-attempt, Frames-if,
}
use dev_ops_agent_swarm.Remediator.Executor.{
  restart_with, api_error, restart_container, execute_body, execute, rollback,
}
use dev_ops_agent_swarm.Remediator.State.{
  Remediator, Remediation, Docker, Outside, next_call, mark_restarted,
}
use dev_ops_agent_swarm.Remediator.Verification.{health_check, run_check, run_checks, verify}

-- what Docker and the services have been asked for
abbrev pub Asked : Type 0
Asked = List String × ℕ

abbrev pub asked : Remediator → Asked
asked s = (s.restarted, s.calls)

-- what an action and a check leave alone: the bus and the remediations under way
abbrev pub Kept : Type 0
Kept = Bus × List (String × Remediation) × List Fields

abbrev pub kept : World Remediator → Kept
kept w = (w.bus, w.agent.active_remediations, w.agent.runbooks)

next_call-Frames : Frames kept next_call
unfolding next_call
next_call-Frames = record { same = λ w. refl }

mark_restarted-Frames : (name : String) → Frames kept (mark_restarted name)
unfolding mark_restarted
mark_restarted-Frames name = Frames-modify _ λ w. refl

restart_with-Frames : (d : Docker) (name : Value) → Frames kept (restart_with d name)
unfolding restart_with
restart_with-Frames d name = Frames->>= next_call-Frames λ n. Frames->>= (Frames-lift _) λ cs.
    Frames->>= (Frames-lift _) λ t. Frames-match_option t (Frames-return _) λ c.
      Frames->>= next_call-Frames
        λ m. Frames->> (mark_restarted-Frames c) (Frames->> (Frames-lift _) (Frames-return _))

api_error-Frames : (o : Outside) (e : Error) → Frames kept (api_error o e)
unfolding api_error
api_error-Frames o docker_error = Frames-return _
api_error-Frames o e = Frames-lift _

restart_container-Frames : (o : Outside) (name : Value) → Frames kept (restart_container o name)
unfolding restart_container
restart_container-Frames o name = Frames-if _ (Frames-return _) (
    Frames-match_option o.docker (Frames-return _) λ d.
      Frames->>= (Frames-attempt (restart_with-Frames d name))
        λ r. Frames-match_result r (api_error-Frames o) λ a. Frames-return a)

execute_body-Frames : (o : Outside) (action : Value) → Frames kept (execute_body o action)
unfolding execute_body
execute_body-Frames o action = Frames->>= (Frames-lift _) λ fields.
    Frames-if (is_text "container_restart" (get_or "type" null fields))
      (Frames->>= (Frames-lift _) λ params. restart_container-Frames o _)
      (Frames-if (is_text "circuit_breaker" (get_or "type" null fields))
        (Frames->>= (Frames-lift _) λ params. Frames-return _) (Frames-return _))

pub execute-Frames : (o : Outside) (action : Value) → Frames kept (execute o action)
unfolding execute
execute-Frames o action =
    Frames->>= (Frames-attempt (execute_body-Frames o action))
      λ r. Frames-match_result r (λ e. Frames-return _) λ a. Frames-return a

pub rollback-Frames : (o : Outside) (action : Fields) → Frames kept (rollback o action)
unfolding rollback
rollback-Frames o action =
    Frames-if _ (Frames->>= (execute-Frames o _) λ a. Frames-return _) (Frames-return _)

run_check-Frames :
    (o : Outside) (check : Value) (diagnosis : Fields) → Frames kept (run_check o check diagnosis)
unfolding run_check health_check
run_check-Frames o check diagnosis = Frames->>= (Frames-lift _) λ fields.
    Frames-if _
      (Frames->>= (Frames-lift _) λ rc.
        Frames->>= (Frames-lift _) λ endpoint. Frames->>= next_call-Frames λ n. Frames-return _)
      (Frames-if _ (Frames-return _) (Frames-return _))

run_checks-Frames :
    (o : Outside) (checks : List Value) (diagnosis : Fields)
    → Frames kept (run_checks o checks diagnosis)
unfolding run_checks
run_checks-Frames o [] diagnosis = Frames-return _
run_checks-Frames o (check ∷ rest) diagnosis =
    Frames->>= (run_check-Frames o check diagnosis)
      λ a. Frames-if _ (run_checks-Frames o rest diagnosis) (Frames-return _)

pub verify-Frames :
    (o : Outside) (runbook diagnosis : Fields) → Frames kept (verify o runbook diagnosis)
unfolding verify
verify-Frames o runbook diagnosis =
    Frames-if _
      (Frames->>= (Frames-lift _) λ v.
        Frames->>= (Frames-lift _)
          λ s. Frames->>= (Frames-lift _) λ checks. run_checks-Frames o checks diagnosis)
      (Frames-return _)

-- ===== src/Orchestrator/Invariant/Service.antt =====
-- The invariant over everything that reaches a running orchestrator.
use dev_ops_agent_swarm.Base.{
  ℕ, ◌≡◌, refl, String, Bool, true, false, List, [], ◌∷◌, Option, none, some, Dict, All, All-insert,
  arith, if◌then◌else◌, Bool-cases, Option-cases, inl, inr, any, subst, insert, ◌==◌,
}
use mathlib.Core.Option.{some-injective}
use dev_ops_agent_swarm.Base.Result.{Result, ok, raise}
use dev_ops_agent_swarm.Base.Value.{Value}
use dev_ops_agent_swarm.Messaging.Client.{World}
use dev_ops_agent_swarm.Messaging.Delivery.{deliver-Keeps}
use dev_ops_agent_swarm.Messaging.Keeps.{
  Keeps, Keeps->>=, Keeps->>, Keeps-return, Keeps-get_agent, Keeps-modify, Keeps-lift_ok,
  Keeps-match_option, Keeps-match_result, Keeps-attempt, Keeps-if,
}
use dev_ops_agent_swarm.Messaging.Message.{Message}
use dev_ops_agent_swarm.Messaging.Subjects.{
  observer_anomalies, diagnoser_results, safety_decisions, remediator_executions, agent_heartbeat,
  human_approvals_responses,
}
use dev_ops_agent_swarm.Orchestrator.Escalation.{
  check_one, check_from, check_timeouts, escalate_affected, handle_dead_agent,
}
use dev_ops_agent_swarm.Orchestrator.Fsm.{
  State, Fsm, should_retry, is_terminal, is_timed_out, init, state_eq,
}
use dev_ops_agent_swarm.Orchestrator.Invariant.{IsTracked, IsValid}
use dev_ops_agent_swarm.Orchestrator.Invariant.Handling.{
  handle_anomaly-Keeps, handle_diagnosis_result-Keeps, handle_safety_decision-Keeps,
  handle_execution_result-Keeps, handle_heartbeat-Keeps, handle_human_approval-Keeps,
}
use dev_ops_agent_swarm.Orchestrator.Invariant.Parts.{
  init-IsTracked, session-Keeps, escalate_to_human-Keeps, retry_current_state-Keeps,
}
use dev_ops_agent_swarm.Orchestrator.Loop.{
  file_under, load_one, load_fsms, is_over, recover_inflight, report_dead, prune, round, handler,
  Input, message, tick, receive, serve_one, serve,
}
use dev_ops_agent_swarm.Orchestrator.State.{Incident, Orchestrator, O}

check_one-Keeps :
    (now : ℕ) (id : String) (f : Fsm) → IsTracked (id, f) → Keeps IsValid (check_one now id f)
unfolding check_one
check_one-Keeps now id f h =
    Keeps-if (is_terminal f) (λ _. Keeps-return _)
      λ _.
        Keeps-if (is_timed_out now f)
          (λ _.
            Keeps-if (should_retry f)
              (λ e. Keeps->> (retry_current_state-Keeps now id f h e) (Keeps-return _))
              (λ _. Keeps->> (escalate_to_human-Keeps id f) (Keeps-return _)))
          (λ _. Keeps-return _)

check_from-Keeps : (now : ℕ) (d : Dict Fsm) → All IsTracked d → Keeps IsValid (check_from now d)
unfolding check_from
check_from-Keeps now [] h = Keeps-return _
check_from-Keeps now ((id, f) ∷ d) h =
    Keeps->>= (check_one-Keeps now id f h.0)
      λ here. Keeps->>= (check_from-Keeps now d h.1) (λ others. Keeps-return _)

escalate_affected-Keeps :
    (states : List State) (d : Dict Fsm) → Keeps IsValid (escalate_affected states d)
unfolding escalate_affected
escalate_affected-Keeps states [] = Keeps-return _
escalate_affected-Keeps states ((id, f) ∷ d) =
    Keeps->>
      (Keeps-if (any (state_eq f.state) states) (λ _. escalate_to_human-Keeps id f)
        (λ _. Keeps-return _))
      (escalate_affected-Keeps states d)

handle_dead_agent-Keeps : (v : Value) → Keeps IsValid (handle_dead_agent v)
unfolding handle_dead_agent
handle_dead_agent-Keeps v =
    Keeps-lift_ok (λ key e. Keeps-get_agent (λ s u. escalate_affected-Keeps _ s.active_fsms))

report_dead-Keeps : (ids : List String) → Keeps IsValid (report_dead ids)
unfolding report_dead
report_dead-Keeps [] = Keeps-return _
report_dead-Keeps (id ∷ ids) = Keeps-get_agent λ s v.
    Keeps->> (Keeps-match_option (Keeps-return _) (λ info e. handle_dead_agent-Keeps _))
      (report_dead-Keeps ids)

prune-Keeps : (now : ℕ) → Keeps IsValid (prune now)
unfolding prune
prune-Keeps now = Keeps-get_agent λ s v.
    Keeps->> (Keeps-modify _ (λ t u. record { tracked = u.tracked; stored = u.stored }))
      (Keeps-return _)

round-Keeps : (now : ℕ) → Keeps IsValid (round now)
unfolding round check_timeouts
round-Keeps now =
    Keeps->>=
      (Keeps-attempt (
        Keeps->>= (Keeps-get_agent λ s v. check_from-Keeps now s.active_fsms v.tracked)
          λ ids. Keeps->>= (prune-Keeps now) (λ dead. report_dead-Keeps dead)))
      (λ _. Keeps-return _)

ok-injective : {s t : Orchestrator} → ok s ≡ ok t → s ≡ t
ok-injective e = ground arith

file_under-All :
    (now : ℕ) (id : String) (inc : Incident) (d : Dict Fsm) (r : Result Fsm) (d' : Dict Fsm)
    → All IsTracked d
    → init id inc.status (some inc.state_entered_at) now ≡ r
    → file_under id d r ≡ some d'
    → All IsTracked d'
file_under-All now id inc d (raise _) d' h q e = cc
file_under-All now id inc d (ok f) d' h q e =
    let same : insert id f d ≡ d' = some-injective _ _ e in
    subst (All IsTracked) same (All-insert IsTracked id f d h (init-IsTracked id _ _ now q))

load_one-All :
    (now : ℕ) (id : String) (inc : Incident) (d : Dict Fsm) {d' : Dict Fsm}
    → All IsTracked d
    → load_one now id inc d ≡ some d'
    → All IsTracked d'
unfolding load_one
load_one-All now id inc d {d'} h e = elim (Bool-cases (is_over inc)) [
  | inl over ↦
      let same : some d ≡ some d' = rw over at e in
      subst (All IsTracked) (some-injective _ _ same) h
  | inr open' ↦
      file_under-All now id inc d (init id inc.status (some inc.state_entered_at) now) d' h refl
        (rw open' at e)
]

load_fsms-All :
    (now : ℕ) (rows : Dict Incident) (d : Dict Fsm)
    → All IsTracked d
    → All IsTracked (load_fsms now rows d)
unfolding load_fsms
load_fsms-All now [] d h = h
load_fsms-All now ((id, inc) ∷ rows) d h = elim (Option-cases (load_one now id inc d)) [
  | inl stop ↦ rw (stop, load_fsms) h
  | inr (more, e) ↦ rw (e, load_fsms) (load_fsms-All now rows more (load_one-All now id inc d h e))
]

-- Starting again from the database keeps the invariant, whether or not the query succeeds.
pub recover_inflight-Keeps : (now : ℕ) → Keeps IsValid (recover_inflight now)
unfolding recover_inflight
recover_inflight-Keeps now =
    Keeps->>= (Keeps-attempt (session-Keeps _ (λ s t v e. subst IsValid (ok-injective e) v)))
      λ answer.
        Keeps-match_result (λ _. Keeps-return _)
          λ _ _. Keeps-modify _ λ s v. record {
            tracked = load_fsms-All now s.incidents s.active_fsms v.tracked;
            stored = v.stored;
          }

abbrev IsKeeper : Option (ℕ → Message → O (Unit {0})) → Type 0
IsKeeper none = Unit
IsKeeper (some h) = (now : ℕ) (msg : Message) → Keeps IsValid (h now msg)

if-IsKeeper :
    (b : Bool) (x y : Option (ℕ → Message → O (Unit {0})))
    → IsKeeper x
    → IsKeeper y
    → IsKeeper (if b then x else y)
if-IsKeeper true x y h k = h
if-IsKeeper false x y h k = k

handler-IsKeeper : (subject : String) → IsKeeper (handler subject)
unfolding handler
handler-IsKeeper subject =
    if-IsKeeper (subject == observer_anomalies) (some _) _ handle_anomaly-Keeps (
      if-IsKeeper (subject == diagnoser_results) (some _) _ handle_diagnosis_result-Keeps (
        if-IsKeeper (subject == safety_decisions) (some _) _ handle_safety_decision-Keeps (
          if-IsKeeper (subject == remediator_executions) (some _) _ handle_execution_result-Keeps (
            if-IsKeeper (subject == agent_heartbeat) (some _) _ handle_heartbeat-Keeps (
              if-IsKeeper (subject == human_approvals_responses) (some _) none
                handle_human_approval-Keeps tt)))))

receive-IsValid :
    (now : ℕ) (o : Option (ℕ → Message → O (Unit {0}))) (msg : Message) (w : World Orchestrator)
    → IsKeeper o
    → IsValid w.agent
    → IsValid (receive now msg o w).agent
receive-IsValid now none msg w k v = v
receive-IsValid now (some h) msg w k v = deliver-Keeps now (h now) msg w (k now msg) v

-- Any messages on any subjects and any rounds of the loop, in any order and at any times, with any
-- refusals of the bus and the database, keep the orchestrator valid: each machine is filed under
-- its incident, is retried at most twice in a state, and has a history that is a path of the diagram.
pub serve-IsValid :
    (inputs : List (ℕ × Input)) (w : World Orchestrator)
    → IsValid w.agent
    → IsValid (serve inputs w).agent
unfolding serve serve_one
serve-IsValid [] w v = v
serve-IsValid ((now, i) ∷ rest) w v = serve-IsValid rest (serve_one now i w) (one i)
  where
    one : (i : Input) → IsValid (serve_one now i w).agent
    one (message subject msg) =
        receive-IsValid now (handler subject) msg w (handler-IsKeeper subject) v
    one tick = (round-Keeps now).keeps w v

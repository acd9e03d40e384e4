-- ===== src/Orchestrator/Invariant/Parts.antt =====
-- Each part of a handler keeps the orchestrator's invariant.
use dev_ops_agent_swarm.Base.{
  ℕ, ◌≡◌, refl, sym, ◌∙◌, subst, String, Bool, true, false, [], Option, none, some, lookup, insert,
  All-insert, All-lookup, arith,
}
use dev_ops_agent_swarm.Base.Result.{Result, ok, raise}
use dev_ops_agent_swarm.Base.Value.{Value, Fields}
use dev_ops_agent_swarm.Messaging.Client.{World, world}
use dev_ops_agent_swarm.Messaging.Keeps.{
  Keeps, Keeps-modify, Keeps->>=, Keeps->>, Keeps-build, Keeps-publish, Keeps-get_agent,
  Keeps-match_result,
}
use dev_ops_agent_swarm.Messaging.Message.{Message}
use dev_ops_agent_swarm.Orchestrator.Agent.{
  update_incident_status, update_incident_timeline, try_transition, publish_lifecycle,
}
use dev_ops_agent_swarm.Orchestrator.Escalation.{escalate_to_human, retry_current_state}
use dev_ops_agent_swarm.Orchestrator.Fsm.{
  State, Fsm, transition, can_transition, move, should_retry, increment_retry, init,
}
use dev_ops_agent_swarm.Orchestrator.Fsm.Graph.{⟶-of-can_transition, transition-inversion}
use dev_ops_agent_swarm.Orchestrator.Fsm.History.{Chain, move-Chain}
use dev_ops_agent_swarm.Orchestrator.Invariant.{IsTracked, IsValid}
use dev_ops_agent_swarm.Orchestrator.State.{
  Incident, Orchestrator, O, session, change_row, change_found, store, update_incident, put_fsm,
  increment_processed, refused, conclude, begun,
}

pub transition-IsTracked :
    (now : ℕ) (t : State) (k : String) (f : Fsm) {g : Fsm}
    → IsTracked (k, f)
    → transition now t f ≡ ok g
    → IsTracked (k, g)
unfolding move
transition-IsTracked now t k f {g} h e =
    let (allowed, same) = transition-inversion now t f e in
    subst (λ x. IsTracked (k, x)) same (moved h allowed)
  where
    moved : IsTracked (k, f) → can_transition f t ≡ true → IsTracked (k, move now t f)
    moved h allowed = record {
      filed = h.filed;
      bounded = omega arith;
      start = h.start;
      path = move-Chain now t f h.start h.path (⟶-of-can_transition f t allowed);
    }

pub increment_retry-IsTracked :
    (now : ℕ) (k : String) (f : Fsm)
    → IsTracked (k, f)
    → should_retry f ≡ true
    → IsTracked (k, increment_retry now f)
unfolding should_retry increment_retry
increment_retry-IsTracked now k f h e = record {
  filed = h.filed;
  bounded = ground arith;
  start = h.start;
  path = h.path;
}

init_fields :
    (k status : String) (entered : Option ℕ) (now : ℕ) {f : Fsm}
    → init k status entered now ≡ ok f
    → (f.incident_id ≡ k) × (f.retry_count ≡ 0) × (f.history ≡ [])
unfolding init
init_fields k status entered now e = ground arith

pub init-IsTracked :
    (k status : String) (entered : Option ℕ) (now : ℕ) {f : Fsm}
    → init k status entered now ≡ ok f
    → IsTracked (k, f)
init-IsTracked k status entered now {f} e =
    let (fresh, count, log) = init_fields k status entered now e in
    record {
      filed = fresh;
      bounded = omega (arith, count);
      start = f.state;
      path = subst (λ x. Chain f.state x f.state) (sym log) refl;
    }

pub put_fsm-Keeps : (k : String) (f : Fsm) → IsTracked (k, f) → Keeps IsValid (put_fsm k f)
unfolding put_fsm
put_fsm-Keeps k f h = Keeps-modify _ λ s v. record {
  tracked = All-insert IsTracked k f s.active_fsms v.tracked h;
  stored = v.stored;
}

pub increment_processed-Keeps : Keeps IsValid increment_processed
unfolding increment_processed
increment_processed-Keeps =
    Keeps-modify _ (λ s v. record { tracked = v.tracked; stored = v.stored })

-- a session keeps the invariant if its body does
pub session-Keeps :
    (f : Orchestrator → Result Orchestrator)
    → ((s t : Orchestrator) → IsValid s → f s ≡ ok t → IsValid t)
    → Keeps IsValid (session f)
unfolding session
session-Keeps f hf = record {
  keeps = λ w v.
      concluded w (begun w.agent) (refused w.agent.db_refusals) (f (begun w.agent))
        (record { tracked = v.tracked; stored = v.stored }) (hf (begun w.agent));
}
  where
    concluded :
        (w : World Orchestrator) (s : Orchestrator) (b : Bool) (r : Result Orchestrator)
        → IsValid s
        → ((t : Orchestrator) → IsValid s → r ≡ ok t → IsValid t)
        → IsValid (world (conclude w s b r)).agent
    concluded w s true r v k = v
    concluded w s false (ok t) v k = k t v refl
    concluded w s false (raise e) v k = v

-- a change of a row keeps the invariant if it keeps the row's identifier
pub update_incident-Keeps :
    (id : String) (f : Incident → Result Incident)
    → ((inc changed : Incident) → f inc ≡ ok changed → changed.id ≡ inc.id)
    → Keeps IsValid (update_incident id f)
unfolding update_incident
update_incident-Keeps id f hf =
    session-Keeps (change_row id f) λ s t v e. found s t v (lookup id s.incidents) refl e
  where
    stored_row :
        (s t : Orchestrator) (inc : Incident) (r : Result Incident)
        → IsValid s
        → lookup id s.incidents ≡ some inc
        → f inc ≡ r
        → store id s r ≡ ok t
        → IsValid t
    stored_row s t inc (raise _) v h q e = cc
    stored_row s t inc (ok changed) v h q e =
        let same : record s { incidents = insert id changed s.incidents } ≡ t = ground arith in
        let key : inc.id ≡ id =
          All-lookup (λ (x : String × Incident). x.1.id ≡ x.0) id s.incidents v.stored h in
        subst IsValid same (record {
          tracked = v.tracked;
          stored =
              All-insert (λ (x : String × Incident). x.1.id ≡ x.0) id changed s.incidents v.stored
                (hf inc changed q ∙ key);
        })

    found :
        (s t : Orchestrator)
        → IsValid s
        → (o : Option Incident) → lookup id s.incidents ≡ o
        → change_found id f s o ≡ ok t
        → IsValid t
    found s t v none h e = let same : s ≡ t = ground arith in subst IsValid same v
    found s t v (some inc) h e = stored_row s t inc (f inc) v h refl e

pub update_incident_status-Keeps :
    (now : ℕ) (id : String) (t : State) → Keeps IsValid (update_incident_status now id t)
unfolding update_incident_status
update_incident_status-Keeps now id t = update_incident-Keeps id _ (λ inc changed e. ground arith)

pub update_incident_timeline-Keeps :
    (now : ℕ) (id kind agent : String) (summary : Value)
    → Keeps IsValid (update_incident_timeline now id kind agent summary)
unfolding update_incident_timeline
update_incident_timeline-Keeps now id kind agent summary =
    update_incident-Keeps id _ (λ inc changed e. ground arith)

pub try_transition-Keeps :
    (now : ℕ) (t : State) (msg : Message) (f : Fsm) (caught : O (Unit {0}))
    (next : Fsm → O (Unit {0}))
    → IsTracked (msg.correlation_id, f)
    → Keeps IsValid caught
    → ((g : Fsm) → IsTracked (msg.correlation_id, g) → Keeps IsValid (next g))
    → Keeps IsValid (try_transition now t msg f caught next)
try_transition-Keeps now t msg f caught next h hc hn =
    Keeps-match_result (λ _. hc)
      λ g e.
        let moved = transition-IsTracked now t msg.correlation_id f h e in
        Keeps->> (put_fsm-Keeps msg.correlation_id g moved) (hn g moved)

pub publish_lifecycle-Keeps :
    (kind id : String) (extra : Fields) → Keeps IsValid (publish_lifecycle kind id extra)
unfolding publish_lifecycle
publish_lifecycle-Keeps kind id extra =
    Keeps-get_agent λ s v. Keeps->>= (Keeps-build _) (λ m. Keeps-publish _ m)

pub escalate_to_human-Keeps : (id : String) (f : Fsm) → Keeps IsValid (escalate_to_human id f)
unfolding escalate_to_human
escalate_to_human-Keeps id f = Keeps->>= (Keeps-build _) (λ m. Keeps-publish _ m)

pub retry_current_state-Keeps :
    (now : ℕ) (id : String) (f : Fsm)
    → IsTracked (id, f)
    → should_retry f ≡ true
    → Keeps IsValid (retry_current_state now id f)
unfolding retry_current_state
retry_current_state-Keeps now id f h e =
    Keeps->> (put_fsm-Keeps id _ (increment_retry-IsTracked now id f h e))
      (Keeps->>= (Keeps-build _) (λ m. Keeps-publish _ m))

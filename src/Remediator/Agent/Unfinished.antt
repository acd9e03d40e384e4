-- ===== src/Remediator/Agent/Unfinished.antt =====
-- What an approval leads to with the clock of the remediator's module.
use dev_ops_agent_swarm.Base.{
  ◌≡◌, refl, ◌∙◌, ap, String, Bool, true, false, List, some, inl, inr, lookup, subst, if◌then◌else◌,
  ℕ,
}
use dev_ops_agent_swarm.Base.Result.{Error, name_error}
use dev_ops_agent_swarm.Base.Value.{Value, str, dict, get_or, null}
use dev_ops_agent_swarm.Messaging.Client.{
  World, Step, naked, fail, world, deliver, effects, ◌>>=◌, ◌>>◌,
}
use dev_ops_agent_swarm.Messaging.Frame.{Frames, Frames-lift}
use dev_ops_agent_swarm.Messaging.Healthy.{Step-cases, >>=_done, >>=_fail}
use dev_ops_agent_swarm.Messaging.Message.{Message, is_expired, utc_now}
use dev_ops_agent_swarm.Remediator.Agent.{
  imported, uuid4, publish_completion_by, verify_fix, carry_out, decide, handle_safety_decision,
}
use dev_ops_agent_swarm.Remediator.Agent.Silence.{
  kept, execute-Frames, rollback-Frames, verify-Frames,
}
use dev_ops_agent_swarm.Remediator.Executor.{execute, rollback}
use dev_ops_agent_swarm.Remediator.State.{Remediator, Remediation, R, Outside}
use dev_ops_agent_swarm.Remediator.Verification.{verify}

-- the messages that were published and the remediations under way
abbrev pub tracked : World Remediator → List (String × Message) × List (String × Remediation)
tracked w = (w.bus.outbox, w.agent.active_remediations)

kept-tracked : {A : Type 0} {m : R A} → Frames kept m → Frames tracked m
kept-tracked h = record { same = λ w. ap (λ k. (k.0.outbox, k.1)) (h.same w) }

-- A computation that raises in every world, and neither publishes nor forgets.
abbrev pub IsStuck : {A : Type 0} → R A → Type 0
IsStuck m =
    (w : World Remediator)
    → (e : Error) × (v : World Remediator) × (m w ≡ fail e v) × (tracked v ≡ tracked w)

IsStuck->>= : {A B : Type 0} (m : R A) (k : A → R B) → IsStuck m → IsStuck (m >>= k)
IsStuck->>= m k h w = let (e, v, stops, same) = h w in (e, v, >>=_fail m k w stops, same)

then-IsStuck :
    {A B : Type 0} (m : R A) (k : A → R B)
    → Frames tracked m
    → ((a : A) → IsStuck (k a))
    → IsStuck (m >>= k)
then-IsStuck m k frame h w = elim (Step-cases (m w)) [
  | inl (a, u, returned) ↦
      let (e, v, stops, same) = h a u in
      (e, v, >>=_done m k w returned ∙ stops, same ∙ left returned)
  | inr (e, v, raised) ↦ (e, v, >>=_fail m k w raised, left raised)
]
  where
    left : {r : Step Remediator _} → m w ≡ r → tracked (world r) ≡ tracked w
    left {r} is = subst (λ s. tracked (world s) ≡ tracked w) is (frame.same w)

IsStuck-if :
    {A : Type 0} (b : Bool) (m n : R A) → IsStuck m → IsStuck n → IsStuck (if b then m else n)
IsStuck-if true m n h k = h
IsStuck-if false m n h k = k

module _ (o : Outside) (now : ℕ) where
  completion-IsStuck :
      (response : Message) (state : Remediation) (result : String) (details : Value)
      → IsStuck (publish_completion_by o (utc_now imported now) response state result details)
  unfolding publish_completion_by uuid4 utc_now effects
  completion-IsStuck response state result details w = (name_error, _, refl, refl)

  verify_fix-IsStuck :
      (response : Message) (state : Remediation)
      → IsStuck (verify_fix o (utc_now imported now) response state)
  unfolding verify_fix ◌>>◌
  verify_fix-IsStuck response state =
      then-IsStuck (verify o state.runbook state.diagnosis) _
        (kept-tracked (verify-Frames o state.runbook state.diagnosis))
        λ a. IsStuck-if a.0 _ _ (completion-IsStuck response state _ _) (
          then-IsStuck (rollback o state.action) _ (kept-tracked (rollback-Frames o state.action))
            λ b. completion-IsStuck response state _ _)

  carry_out-IsStuck :
      (response : Message) (state : Remediation)
      → IsStuck (carry_out o (utc_now imported now) response state)
  unfolding carry_out ◌>>◌
  carry_out-IsStuck response state = then-IsStuck _ _ (Frames-lift _) λ t.
      then-IsStuck (execute o (dict state.action)) _
        (kept-tracked (execute-Frames o (dict state.action)))
        λ a. IsStuck->>= _ _ (
          IsStuck-if a.0 _ _ (verify_fix-IsStuck response state)
            (completion-IsStuck response state _ _))

  -- An approval of a remediation under way, in time and with the names that main.py imports: however
  -- its execution, its verification and a rollback end, the approval is refused and will be delivered
  -- again. No completion is published, and the remediation stays under way, so that a further
  -- delivery carries out the same action once more.
  pub deliver-unfinished :
      (response : Message) (state : Remediation) (w : World Remediator)
      → is_expired now response ≡ false
      → lookup response.correlation_id w.agent.active_remediations ≡ some state
      → get_or "status" null response.payload ≡ str "approved"
      → (v : World Remediator) × (deliver now
            (handle_safety_decision o (utc_now imported now))
            response
            w
          ≡ (naked, v))
        × (v.bus.outbox ≡ w.bus.outbox)
        × (lookup response.correlation_id v.agent.active_remediations ≡ some state)
        × (handle_safety_decision o (utc_now imported now) response v
            ≡ carry_out o (utc_now imported now) response state v)
  unfolding deliver handle_safety_decision decide effects
  deliver-unfinished response state w fresh found approved =
      let (e, v, stops, same) = carry_out-IsStuck response state w in
      (
        v,
        rw (fresh, found, approved, stops) refl,
        ap (λ t. t.0) same,
        ap (λ t. lookup response.correlation_id t.1) same ∙ found,
        rw (ap (λ t. t.1) same, found, approved) refl,
      )

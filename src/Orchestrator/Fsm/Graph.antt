-- ===== src/Orchestrator/Fsm/Graph.antt =====
-- The transition diagram as a relation, and what every path through it shows.
use dev_ops_agent_swarm.Base.{ℕ, ◌≡◌, refl, ◌↔◌, inl, inr, true, some, arith, Bool-cases}
use dev_ops_agent_swarm.Base.Result.{ok, raise, value_error}
use dev_ops_agent_swarm.Orchestrator.Fsm.{
  State, detecting, diagnosing, proposing_remediation, safety_review, executing, verifying,
  resolved, closed, Fsm, name, of_name, can_transition, transition, move,
}

infix 40 ◌⟶◌ ◌⟶*◌
pub data ◌⟶◌ : State → State → Type 0 where
  diagnose : detecting ⟶ diagnosing
  propose : diagnosing ⟶ proposing_remediation
  review : proposing_remediation ⟶ safety_review
  approve : safety_review ⟶ executing
  reject : safety_review ⟶ proposing_remediation
  verify : executing ⟶ verifying
  replan : executing ⟶ proposing_remediation
  resolve : verifying ⟶ resolved
  repeat : verifying ⟶ executing
  close : resolved ⟶ closed

pub data ◌⟶*◌ : State → State → Type 0 where
  here : {s : State} → s ⟶* s
  next : {s t u : State} → s ⟶ t → t ⟶* u → s ⟶* u

ruleset edges = (diagnose, propose, review, approve, reject, verify, replan, resolve, repeat, close)

pub ⟶-of-can_transition : (f : Fsm) (t : State) → can_transition f t ≡ true → f.state ⟶ t
unfolding can_transition
⟶-of-can_transition f t h = grind (arith, edges)

pub can_transition-of-⟶ : {s t : State} (f : Fsm) → f.state ≡ s → s ⟶ t → can_transition f t ≡ true
unfolding can_transition
can_transition-of-⟶ f e diagnose = ground arith
can_transition-of-⟶ f e propose = ground arith
can_transition-of-⟶ f e review = ground arith
can_transition-of-⟶ f e approve = ground arith
can_transition-of-⟶ f e reject = ground arith
can_transition-of-⟶ f e verify = ground arith
can_transition-of-⟶ f e replan = ground arith
can_transition-of-⟶ f e resolve = ground arith
can_transition-of-⟶ f e repeat = ground arith
can_transition-of-⟶ f e close = ground arith

pub transition-inversion :
    (now : ℕ) (t : State) (f : Fsm) {g : Fsm}
    → transition now t f ≡ ok g
    → (can_transition f t ≡ true) × (move now t f ≡ g)
unfolding transition
transition-inversion now t f e = ground arith

-- A transition succeeds exactly along an edge of the diagram, and raises `ValueError` exactly
-- where there is none.
pub transition_iff :
    (now : ℕ) (t : State) (f : Fsm)
    → ((transition now t f ≡ ok (move now t f)) ↔ (f.state ⟶ t))
      × ((transition now t f ≡ raise value_error) ↔ (¬ (f.state ⟶ t)))
unfolding transition
transition_iff now t f = elim (Bool-cases (can_transition f t)) [
  | inl h ↦
      let edge = ⟶-of-can_transition f t h in
      ((λ _. edge, λ _. ground arith), (λ e. absurd (ground arith), λ none. absurd (none edge)))
  | inr h ↦
      let none : ¬ (f.state ⟶ t) = λ r. absurd (ground (arith, can_transition-of-⟶ f refl r)) in
      ((λ e. absurd (ground arith), λ r. absurd (none r)), (λ _. none, λ _. ground arith))
]

-- From every state there is a path to `closed`, and from `closed` there is none to another state.
pub ⟶*-closed : (s : State) → (s ⟶* closed) × ((t : State) → closed ⟶* t → t ≡ closed)
⟶*-closed s = (to_closed s, λ t p. from_closed p refl)
  where
    to_closed : (s : State) → s ⟶* closed
    to_closed closed = here
    to_closed resolved = search (here, next, edges)
    to_closed _ = search (here, next, edges) depth 12

    from_closed : {s t : State} → s ⟶* t → s ≡ closed → t ≡ closed
    from_closed here e = e
    from_closed (next close _) e = cc
    from_closed (next diagnose _) e = cc
    from_closed (next propose _) e = cc
    from_closed (next review _) e = cc
    from_closed (next approve _) e = cc
    from_closed (next reject _) e = cc
    from_closed (next verify _) e = cc
    from_closed (next replan _) e = cc
    from_closed (next resolve _) e = cc
    from_closed (next repeat _) e = cc

pub of_name-name : (s : State) → of_name (name s) ≡ some s
unfolding of_name
of_name-name detecting = refl
of_name-name diagnosing = refl
of_name-name proposing_remediation = refl
of_name-name safety_review = refl
of_name-name executing = refl
of_name-name verifying = refl
of_name-name resolved = refl
of_name-name closed = refl

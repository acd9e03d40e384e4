-- ===== src/Orchestrator/Fsm/History.antt =====
-- The history that a machine keeps, over every sequence of transitions and retries.
use dev_ops_agent_swarm.Base.{
  ℕ, ◌≡◌, refl, sym, subst, ◌∙◌, ◌⊎◌, inl, inr, Bool, true, false, List, [], ◌∷◌, ◌++◌, arith, any,
  ◌&&◌, ◌≤◌, length, ◌+◌,
}
use dev_ops_agent_swarm.Base.Result.{Result, ok, raise}
use dev_ops_agent_swarm.Orchestrator.Fsm.{
  State, detecting, diagnosing, proposing_remediation, safety_review, executing, verifying,
  resolved, closed, Fsm, Change, state_eq, transition, move, increment_retry,
}
use dev_ops_agent_swarm.Orchestrator.Fsm.Graph.{
  ◌⟶◌, diagnose, propose, review, approve, reject, verify, replan, resolve, repeat, close,
  ⟶-of-can_transition, transition-inversion,
}

-- What the agents do to a machine: try a transition, or retry the current state.
pub data Call : Type 0 where
  goes : State → Call
  retries : Call

-- the machine that a caller which catches `ValueError` is left with
abbrev pub kept : Fsm → Result Fsm → Fsm
kept f (ok g) = g
kept f (raise _) = f

unfoldable pub after : ℕ → Call → Fsm → Fsm
after now (goes t) f = kept f (transition now t f)
after now retries f = increment_retry now f

unfoldable pub run : List (ℕ × Call) → Fsm → Fsm
run [] f = f
run ((now, c) ∷ cs) f = run cs (after now c f)

-- The changes lead from `s` to `t`, each along an edge, each from where the one before it went.
abbrev pub Chain : State → List Change → State → Type 0
Chain s [] t = s ≡ t
Chain s (c ∷ cs) t = (c.source ≡ s) × (s ⟶ c.target) × Chain c.target cs t

pub Chain-snoc :
    (s : State) (h : List Change) {t : State} (c : Change)
    → Chain s h t
    → c.source ≡ t
    → t ⟶ c.target
    → Chain s (h ++ c ∷ []) c.target
Chain-snoc s [] c e p q = (p ∙ sym e, subst (λ x. x ⟶ c.target) (sym e) q, refl)
Chain-snoc s (d ∷ h) c (a, b, r) p q = (a, b, Chain-snoc d.target h c r p q)

pub move-Chain :
    (now : ℕ) (t : State) (f : Fsm) (s : State)
    → Chain s f.history f.state
    → f.state ⟶ t
    → Chain s (move now t f).history (move now t f).state
unfolding move
move-Chain now t f s h e = Chain-snoc s f.history _ h refl e

pub transition-Chain :
    (now : ℕ) (t : State) (f : Fsm) (s : State) {g : Fsm}
    → Chain s f.history f.state
    → transition now t f ≡ ok g
    → Chain s g.history g.state
transition-Chain now t f s h e =
    let (allowed, same) = transition-inversion now t f e in
    subst (λ x. Chain s x.history x.state) same
      (move-Chain now t f s h (⟶-of-can_transition f t allowed))

kept-Chain :
    (f : Fsm) (r : Result Fsm) (s : State)
    → Chain s f.history f.state
    → ((g : Fsm) → r ≡ ok g → Chain s g.history g.state)
    → Chain s (kept f r).history (kept f r).state
kept-Chain f (ok g) s h k = k g refl
kept-Chain f (raise _) s h k = h

after-Chain :
    (now : ℕ) (c : Call) (f : Fsm) (s : State)
    → Chain s f.history f.state
    → Chain s (after now c f).history (after now c f).state
unfolding after increment_retry
after-Chain now (goes t) f s h =
    kept-Chain f (transition now t f) s h (λ g e. transition-Chain now t f s h e)
after-Chain now retries f s h = h

-- However transitions are tried and states retried, the history that a machine has kept is a path
-- of the diagram to its current state.
pub run-Chain :
    (cs : List (ℕ × Call)) (f : Fsm) (s : State)
    → Chain s f.history f.state
    → Chain s (run cs f).history (run cs f).state
unfolding run
run-Chain [] f s h = h
run-Chain ((now, c) ∷ cs) f s h = run-Chain cs (after now c f) s (after-Chain now c f s h)

-- the change from `safety_review` to `executing`
abbrev pub is_approval : Change → Bool
is_approval c = state_eq c.source safety_review && state_eq c.target executing

-- the states behind the safety gate
abbrev pub is_gated : State → Bool
is_gated executing = true
is_gated verifying = true
is_gated resolved = true
is_gated closed = true
is_gated _ = false

edge_gate :
    {s t : State}
    → s ⟶ t
    → is_gated s ≡ false
    → (is_gated t ≡ false) ⊎ ((s ≡ safety_review) × (t ≡ executing))
edge_gate diagnose h = inl refl
edge_gate propose h = inl refl
edge_gate review h = inl refl
edge_gate approve h = inr (refl, refl)
edge_gate reject h = inl refl
edge_gate verify h = cc
edge_gate replan h = cc
edge_gate resolve h = cc
edge_gate repeat h = cc
edge_gate close h = cc

-- A history that leads from a state before the safety gate to one behind it holds the change from
-- `safety_review` to `executing`.
pub Chain-approved :
    (s : State) (h : List Change) (t : State)
    → Chain s h t
    → is_gated s ≡ false
    → is_gated t ≡ true
    → any is_approval h ≡ true
Chain-approved s [] t e p q = absurd (ground arith)
Chain-approved s (c ∷ h) t (a, b, r) p q = elim (edge_gate b p) [
  | inl before ↦ ground (arith, Chain-approved c.target h t r before q)
  | inr (from, to) ↦ ground arith
]

-- how far a state is along the lifecycle
abbrev pub rank : State → ℕ
rank detecting = 0
rank diagnosing = 1
rank proposing_remediation = 2
rank safety_review = 3
rank executing = 4
rank verifying = 5
rank resolved = 6
rank closed = 7

rank-⟶ : {s t : State} → s ⟶ t → rank t ≤ rank s + 1
rank-⟶ diagnose = omega arith
rank-⟶ propose = omega arith
rank-⟶ review = omega arith
rank-⟶ approve = omega arith
rank-⟶ reject = omega arith
rank-⟶ verify = omega arith
rank-⟶ replan = omega arith
rank-⟶ resolve = omega arith
rank-⟶ repeat = omega arith
rank-⟶ close = omega arith

pub Chain-rank :
    (s : State) (h : List Change) (t : State) → Chain s h t → rank t ≤ rank s + length h
Chain-rank s [] t e = subst (λ x. rank x ≤ rank s + 0) e (omega arith)
Chain-rank s (c ∷ h) t (a, b, r) = omega (arith, rank-⟶ b, Chain-rank c.target h t r)

-- A machine that starts in `detecting` with no history and is now behind the safety gate has an
-- approval, `safety_review` to `executing`, in its history, which has at least as many changes as
-- the state is steps along the lifecycle: six for `resolved`.
pub run-gated :
    (cs : List (ℕ × Call)) (f : Fsm)
    → f.state ≡ detecting
    → f.history ≡ []
    → is_gated (run cs f).state ≡ true
    → (any is_approval (run cs f).history ≡ true)
      × (rank (run cs f).state ≤ length (run cs f).history)
run-gated cs f s h gated =
    let start : Chain detecting f.history f.state =
      subst (λ x. Chain detecting x f.state) (sym h) (sym s) in
    let path = run-Chain cs f detecting start in
    let g = run cs f in
    (
      Chain-approved detecting g.history g.state path refl gated,
      omega (arith, Chain-rank detecting g.history g.state path),
    )

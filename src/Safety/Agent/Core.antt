-- ===== src/Safety/Agent/Core.antt =====
-- How the blast radius bears on the ruling of the policy engine.
use dev_ops_agent_swarm.Base.{
  ◌≡◌, refl, sym, subst, String, true, false, List, In, inl, inr, Bool-cases, arith, eq_iff, some,
}
use dev_ops_agent_swarm.Base.Int.{ℤ}
use dev_ops_agent_swarm.Base.Result.{Result, ok}
use dev_ops_agent_swarm.Base.Value.{
  Value, Fields, end, field, null, str, dict, get, get_or, set, is_text,
}
use dev_ops_agent_swarm.Safety.Agent.{in_context, is_raised}
use dev_ops_agent_swarm.Safety.BlastRadius.{
  Blast, critical, core_infrastructure, calculate, blast_of,
}
use dev_ops_agent_swarm.Safety.Policy.{Ruling, passed, evaluate, banned_targets, scale_rule}
use dev_ops_agent_swarm.Safety.Policy.Rules.{evaluate-approved}

-- a restart that its proposer calls low risk
abbrev pub restart : String → Fields
restart target =
    field "type" (str "container_restart")
      (field "risk" (str "low") (field "params" (dict (field "target" (str target) end)) end))

get-set : (k : String) (v : Value) (d : Fields) → get k (set k v d) ≡ some v
unfolding get set
get-set k v end = ground (arith, eq_iff k k)
get-set k v (field i w d) = ground (arith, eq_iff i k, eq_iff k k, get-set k v d)

module _ (to_int : Value → Result ℤ) (ancestors : String → List String) where
  -- the ruling on a restart, with the blast radius of its target
  abbrev pub ruled : String → Blast → Result Ruling
  ruled target blast = evaluate to_int (in_context (restart target) blast)

  abbrev pub IsUnnoticed : String → Type 0
  IsUnnoticed target =
      (blast : Blast) × (calculate ancestors (restart target) ≡ ok blast)
      × (blast.risk_level ≡ critical)
      × (ruled target blast ≡ ok passed)

  unnoticed : (target : String) → In target core_infrastructure → IsUnnoticed target
  unfolding calculate evaluate in_context get blast_of banned_targets scale_rule
  unnoticed target (inl h) =
      subst IsUnnoticed (sym h) (blast_of ancestors (str "postgres-orders"), refl, refl, refl)
  unnoticed target (inr (inl h)) =
      subst IsUnnoticed (sym h) (blast_of ancestors (str "nats"), refl, refl, refl)
  unnoticed target (inr (inr (inl h))) =
      subst IsUnnoticed (sym h) (blast_of ancestors (str "redis"), refl, refl, refl)
  unnoticed target (inr (inr (inr nowhere))) = absurd nowhere

  -- the risk is high in the context of a raised blast radius
  in_context-raised :
      (action : Fields) (blast : Blast)
      → is_raised blast.risk_level ≡ true
      → is_text "high" (get_or "risk" null (in_context action blast)) ≡ true
  unfolding in_context
  in_context-raised action blast raised = ground (arith, get-set "risk" (str "high") action)

  referred :
      (action : Fields) (blast : Blast) {r : Ruling}
      → is_raised blast.risk_level ≡ true
      → evaluate to_int (in_context action blast) ≡ ok r
      → r.approved ≡ false
  referred action blast {r} raised e = elim (Bool-cases r.approved) [
    | inl approved ↦
        let (_, (params, _, permitted)) =
          evaluate-approved to_int (in_context action blast) e approved in
        absurd (clash permitted.tame (in_context-raised action blast raised))
    | inr refused ↦ refused
  ]
    where
      clash :
          is_text "high" (get_or "risk" null (in_context action blast)) ≡ false
          → is_text "high" (get_or "risk" null (in_context action blast)) ≡ true
          → ⊥
      clash f t = cc

  -- A ruling on an action whose blast radius is of the level medium or high does not approve. But a
  -- restart of core infrastructure that its proposer calls low risk, whose level is critical, is
  -- approved by the policies.
  pub evaluate-in_context :
      (action : Fields) (blast : Blast) {r : Ruling} (target : String)
      → is_raised blast.risk_level ≡ true
      → evaluate to_int (in_context action blast) ≡ ok r
      → In target core_infrastructure
      → (r.approved ≡ false) × IsUnnoticed target
  evaluate-in_context action blast target raised e core =
      (referred action blast raised e, unnoticed target core)

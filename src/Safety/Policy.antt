-- ===== src/Safety/Policy.antt =====
-- `PolicyEngine` (agents/safety/src/policy_engine.py). `to_int` is Python's `int` on a value that is
-- no integer.
pub mod Rules
use dev_ops_agent_swarm.Base.{
  String, Bool, true, false, List, [], ◌∷◌, any, if◌then◌else◌, ◌==◌, ◌&&◌, ◌||◌, not,
}
use dev_ops_agent_swarm.Base.Int.{ℤ, pos, ltb_ℤ}
use dev_ops_agent_swarm.Base.Result.{Result, ok, raise, ◌>>=◌}
use dev_ops_agent_swarm.Base.Value.{
  Value, Fields, end, null, int, str, dict, get_or, as_dict, as_key, or_else, is_text, is_true,
  truthy, f_string,
}
use dev_ops_agent_swarm.Safety.RateLimiter.{target_of}

-- `(is_approved, reason)`
pub record Ruling : Type 0 where
  pub approved : Bool
  pub reason : Value

abbrev pub refusal : Value → Ruling
refusal reason = record { approved = false; reason = reason }

abbrev pub passed : Ruling
passed = record { approved = true; reason = str "Passed all safety policies" }

-- `target in [...]`
abbrev pub among : List String → Value → Bool
among names v = any (λ s. is_text s v) names

-- `self.banned_actions.get(action_type, [])`
unfoldable pub banned_targets : Value → List String
banned_targets action_type =
    if is_text "sql_execute" action_type
    then "postgres-orders" ∷ "postgres-payments" ∷ "postgres-agents" ∷ []
    else if is_text "container_restart" action_type
    then "postgres-agents" ∷ []
    else []

module _ (to_int : Value → Result ℤ) where
  -- `int(v)`
  abbrev pub int_of : Value → Result ℤ
  int_of (int n) = ok n
  int_of v = to_int v

  -- the test of rule 4
  abbrev pub within_limit : ℤ → ℤ → Ruling
  within_limit replicas max_replicas =
      if ltb_ℤ max_replicas replicas
      then refusal (
          f_string (
            str "Requested replicas ("
            ∷ int replicas
            ∷ str ") exceeds hard limit ("
            ∷ int max_replicas
            ∷ str ")"
            ∷ []))
      else passed

  -- rule 4
  unfoldable pub scale_rule : Value → Fields → Result Ruling
  scale_rule action_type params =
      if is_text "container_scale" action_type
      then (do
        replicas ← int_of (get_or "replicas" (int (pos 0)) params)
        max_replicas ← int_of (get_or "max_replicas" (int (pos 5)) params)
        ok (within_limit replicas max_replicas))
      else ok passed

  -- rules 3 and 4
  unfoldable pub ban_rule : Value → Value → Value → Fields → Result Ruling
  ban_rule action_type key target params =
      if among (banned_targets key) target
      then ok (
          refusal (
            f_string (
              str "Action '"
              ∷ action_type
              ∷ str "' targeting '"
              ∷ target
              ∷ str "' is banned from auto-approval"
              ∷ [])))
      else scale_rule action_type params

  -- rules 1 to 4, in their order
  unfoldable pub apply_rules : Fields → Fields → Result Ruling
  unfolding ban_rule
  apply_rules action params =
      let action_type = get_or "type" (str "unknown") action in
      let target = or_else (target_of params) (str "unknown") in
      if is_true (get_or "approval_required" null action)
      then ok (refusal (str "Runbook explicitly requires human approval for this action"))
      else if is_text "high" (get_or "risk" null action)
      then ok (refusal (str "High-risk actions require human approval"))
      else (do key ← as_key action_type; ban_rule action_type key target params)

  unfoldable pub evaluate : Fields → Result Ruling
  unfolding apply_rules
  evaluate action =
      if truthy (dict action)
      then (do params ← as_dict (get_or "params" (dict end) action); apply_rules action params)
      else ok (refusal (str "Empty action payload"))

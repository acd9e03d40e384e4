-- ===== src/Safety/Agent.antt =====
-- `SafetyAgent._evaluate_action` (agents/safety/src/main.py) and the request of
-- `HumanApprovalGateway` (agents/safety/src/approval_gateway.py).
pub mod Review
pub mod Reviews
pub mod Raising
pub mod Core
use dev_ops_agent_swarm.Base.{ℕ, String, Bool, true, false, not, List, [], ◌∷◌, if◌then◌else◌, ◌||◌}
use dev_ops_agent_swarm.Base.Int.{ℤ, pos}
use dev_ops_agent_swarm.Base.Result.{Result, ok, raise, ◌>>=◌}
use dev_ops_agent_swarm.Base.Value.{
  Value, Items, nil, cons, Fields, end, field, null, int, str, list, dict, get_or, set, as_dict,
  is_text,
}
use dev_ops_agent_swarm.Safety.BlastRadius.{
  Blast, Risk, risk_name, unknown, low, medium, high, critical, calculate,
}
use dev_ops_agent_swarm.Safety.Policy.{Ruling, evaluate}
use dev_ops_agent_swarm.Safety.RateLimiter.{Limiter, Verdict, check_by, note_by}

abbrev pub text_items : List String → Items
text_items [] = nil
text_items (s ∷ ss) = cons (str s) (text_items ss)

-- the `dict` that `calculate` returns; the quotient `impact_score` is given as its numerator and its
-- denominator
abbrev pub blast_value : Blast → Value
blast_value b = dict (
    field "risk_level" (str (risk_name b.risk_level)) (
      field "affected_services" (list (text_items b.affected_services)) (
        field "impact_score" (list (cons (int (pos b.impact)) (cons (int (pos b.total)) nil)))
          (field "reason" b.reason end))))

-- `format_approval_request`
unfoldable pub format_approval_request : String → Value → Fields → Value → Blast → Result Fields
format_approval_request incident_id diagnosis action policy_reason blast = do
  d ← as_dict diagnosis
  cause ← as_dict (get_or "root_cause" (dict end) d)
  ok (
      field "incident_id" (str incident_id) (
        field "status" (str "pending_human_approval") (
          field "reason" policy_reason (
            field "proposed_action" (dict action) (
              field "blast_radius" (blast_value blast) (
                field "context"
                  (dict (
                    field "root_cause_service" (get_or "service" null cause)
                      (field "root_cause_category" (get_or "category" null cause) end)))
                  end))))))

abbrev pub rejection : Value → Fields
rejection reason = field "status" (str "rejected") (field "reason" reason end)

abbrev pub approval : Blast → Fields → Fields
approval blast action = field "status" (str "approved") (
    field "reason" (str "Passed all safety checks")
      (field "blast_radius" (blast_value blast) (field "action" (dict action) end)))

-- `risk_level in ["medium", "high"]`
abbrev pub is_raised : Risk → Bool
is_raised medium = true
is_raised high = true
is_raised _ = false

-- `action_with_context`
unfoldable pub in_context : Fields → Blast → Fields
in_context action blast =
    if is_text "medium" (get_or "risk" null action)
      || is_text "high" (get_or "risk" null action)
      || is_raised blast.risk_level
    then set "risk" (str "high") action
    else action

module _ (sha256 : String → String) (show : Value → Value → String) (to_int : Value → Result ℤ)
    (ancestors : String → List String) (clock : Result ℕ) where
  -- what follows the ruling: a request to a human, or the approval, which is recorded
  unfoldable pub settle :
      String → Value → Fields → Blast → Limiter → Ruling → Result (Limiter × Fields)
  settle incident_id diagnosis action blast l ruling =
      if ruling.approved
      then (do l' ← note_by sha256 show clock action l; ok (l', approval blast action))
      else (do
        request ← format_approval_request incident_id diagnosis action ruling.reason blast
        ok (l, request))

  -- what follows the rate limiter's answer
  unfoldable pub rule :
      String → Value → Fields → Blast → Limiter → Verdict → Result (Limiter × Fields)
  rule incident_id diagnosis action blast l verdict =
      if verdict.allowed
      then (do
        ruling ← evaluate to_int (in_context action blast)
        settle incident_id diagnosis action blast l ruling)
      else ok (l, rejection verdict.reason)

  -- `_evaluate_action`: the decision, and the limiter that it leaves; the clock is read once. An
  -- exception after `check` leaves the pruned history, which the result does not show.
  unfoldable pub evaluate_action : String → Value → Fields → Limiter → Result (Limiter × Fields)
  evaluate_action incident_id diagnosis action l = do
    blast ← calculate ancestors action
    (l', verdict) ← check_by sha256 show clock action l
    rule incident_id diagnosis action blast l' verdict

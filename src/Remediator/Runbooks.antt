-- ===== src/Remediator/Runbooks.antt =====
-- `RunbookEngine` (agents/remediator/src/runbook_engine.py), on the runbooks that it has loaded, in
-- the order of their dictionary.
pub mod Matching
use dev_ops_agent_swarm.Base.{
  String, Bool, true, false, not, List, [], ◌∷◌, Option, none, some, if◌then◌else◌, ◌&&◌,
}
use dev_ops_agent_swarm.Base.Compare.{value_eq, at_least}
use dev_ops_agent_swarm.Base.Int.{pos}
use dev_ops_agent_swarm.Base.Result.{Result, ok, raise, attribute_error, type_error, ◌>>=◌}
use dev_ops_agent_swarm.Base.Text.{contains, replace}
use dev_ops_agent_swarm.Base.Value.{
  Value, Fields, end, field, null, int, str, dict, get_or, set, as_dict, truthy,
}

-- whether a runbook's `matches` fit a category and a confidence
unfoldable pub fits : Value → Value → Fields → Result Bool
fits category confidence matches =
    if value_eq (get_or "root_cause_category" null matches) category
    then at_least confidence (get_or "confidence_minimum" (int (pos 0)) matches)
    else ok false

-- the loop of `find_match`
unfoldable pub first_match : Value → Value → List Fields → Result (Option Fields)
first_match category confidence [] = ok none
first_match category confidence (rb ∷ rest) =
    let later = first_match category confidence rest in
    do
      matches ← as_dict (get_or "matches" (dict end) rb)
      fit ← fits category confidence matches
      if fit then ok (some rb) else later

unfoldable pub find_match : List Fields → Fields → Result (Option Fields)
find_match runbooks diagnosis = do
  rc ← as_dict (get_or "root_cause" (dict end) diagnosis)
  (if truthy (get_or "category" null rc)
      then first_match (get_or "category" null rc) (get_or "confidence" (int (pos 0)) rc) runbooks
      else ok none)

abbrev pub placeholder : String
placeholder = "{{diagnosis.root_cause.service}}"

-- the argument of `str.replace` must be a text
abbrev pub replaced_by : String → Value → Result String
replaced_by s (str service) = ok (replace s placeholder service)
replaced_by s _ = raise type_error

-- the value of one parameter after the interpolation
unfoldable pub render_value : Fields → Value → Result Value
render_value diagnosis (str s) =
    if contains "{{" s && contains placeholder s
    then (do
      rc ← as_dict (get_or "root_cause" (dict end) diagnosis)
      t ← replaced_by s (get_or "service" (str "unknown") rc)
      ok (str t))
    else ok (str s)
render_value diagnosis v = ok v

-- the loop over `params.items()`
unfoldable pub render_params : Fields → Fields → Result Fields
render_params diagnosis end = ok end
render_params diagnosis (field k v rest) = do
  w ← render_value diagnosis v
  others ← render_params diagnosis rest
  ok (field k w others)

unfoldable pub render_action : Value → Fields → Result Fields
render_action action diagnosis = do
  rendered ← as_dict action
  params ← as_dict (get_or "params" (dict end) rendered)
  interpolated ← render_params diagnosis params
  ok (set "params" (dict interpolated) rendered)

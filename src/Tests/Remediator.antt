-- ===== src/Tests/Remediator.antt =====
-- Witnesses for the remediator.
use dev_ops_agent_swarm.Base.{lookup, ◌≡◌, refl, String, true, false, List, [], ◌∷◌, none, some}
use dev_ops_agent_swarm.Base.Compare.{value_eq, at_least}
use dev_ops_agent_swarm.Base.Int.{pos}
use dev_ops_agent_swarm.Base.Result.{ok, raise, http_error, name_error}
use dev_ops_agent_swarm.Base.Text.{contains, replace}
use dev_ops_agent_swarm.Base.Value.{null, get_or, Fields, str, int, dict, end, field, get, set}
use dev_ops_agent_swarm.Messaging.Client.{World, deliver, naked}
use dev_ops_agent_swarm.Messaging.Message.{Message, is_expired, utc_now}
use dev_ops_agent_swarm.Remediator.Agent.{imported, carry_out, handle_safety_decision}
use dev_ops_agent_swarm.Remediator.Agent.Gate.{diagnosis, decision, serve, serve-asked}
use dev_ops_agent_swarm.Remediator.Agent.Publishing.{published, unclocked, serve-published}
use dev_ops_agent_swarm.Remediator.Agent.Silence.{asked}
use dev_ops_agent_swarm.Remediator.Agent.Unfinished.{deliver-unfinished}
use dev_ops_agent_swarm.Remediator.Runbooks.{
  find_match, first_match, fits, render_action, render_params, render_value,
}
use dev_ops_agent_swarm.Remediator.Runbooks.Matching.{Chosen, find_match-Chosen}
use dev_ops_agent_swarm.Remediator.State.{Remediator, Remediation, Outside}

abbrev runbook : String → Fields
runbook category =
    field "id" (str category)
      (field "matches" (dict (field "root_cause_category" (str category) end)) end)

abbrev cause : Fields
cause = field "category" (str "memory_leak") (field "service" (str "order-svc") end)

abbrev leak_diagnosis : Fields
leak_diagnosis = field "root_cause" (dict cause) end

abbrev books : List Fields
books = runbook "database_overload" ∷ runbook "memory_leak" ∷ []

books_found : find_match books leak_diagnosis ≡ ok (some (runbook "memory_leak"))
unfolding find_match first_match fits get value_eq at_least
books_found = refl

find_match-Chosen_example :
    Chosen (str "memory_leak") (int (pos 0)) books (some (runbook "memory_leak"))
unfolding get
find_match-Chosen_example = find_match-Chosen books leak_diagnosis cause refl refl books_found

abbrev restart : String → Fields
restart target =
    field "type" (str "container_restart")
      (field "params" (dict (field "target" (str target) end)) (field "risk" (str "high") end))

render_example :
    render_action (dict (restart "{{diagnosis.root_cause.service}}")) leak_diagnosis
    ≡ ok (restart "order-svc")
unfolding render_action render_params render_value get set contains replace
render_example = refl

abbrev outside : Outside
outside = record {
  docker = none;
  http_get = λ n endpoint. raise http_error;
  text_of = λ e. "error";
}

abbrev remediation : Remediation
remediation = record {
  diagnosis = leak_diagnosis;
  runbook = runbook "memory_leak";
  action = restart "order-svc";
}

abbrev message : Fields → Message
message payload = record {
  message_id = "m";
  correlation_id = "i";
  trace_id = "t";
  source_agent = "agents.safety";
  target_agent = "agents.remediator";
  message_type = "safety_decision";
  priority = 1;
  ttl_seconds = 300;
  timestamp = 0;
  retry_count = 0;
  payload = payload;
  context = end;
}

abbrev approved : Message
approved = message (field "status" (str "approved") end)

abbrev rejected : Message
rejected = message (field "status" (str "rejected") end)

abbrev remediating : World Remediator
remediating = record {
  agent = record {
    runbooks = books;
    active_remediations = ("i", remediation) ∷ [];
    restarted = [];
    calls = 0;
  };
  bus = record {
    connected = true;
    refusals = [];
    uuids =
        λ n. record { message_uuid = "m"; correlation_uuid = "c"; trace_uuid = "t"; created = 0 };
    built = 0;
    outbox = [];
  };
}

serve-asked_example :
    asked
      (serve outside
        ((1, ok 1, diagnosis (message leak_diagnosis)) ∷ (2, ok 2, decision rejected) ∷ [])
        remediating).agent
    ≡ asked remediating.agent
unfolding get
serve-asked_example =
    serve-asked outside
      ((1, ok 1, diagnosis (message leak_diagnosis)) ∷ (2, ok 2, decision rejected) ∷ [])
      remediating (refl, (refl, tt))

serve-published_example :
    published (
      serve outside
        (unclocked outside name_error
          ((1, diagnosis (message leak_diagnosis)) ∷ (2, decision approved) ∷ []))
        remediating)
    ≡ published remediating
serve-published_example =
    serve-published outside name_error
      ((1, diagnosis (message leak_diagnosis)) ∷ (2, decision approved) ∷ []) remediating

approved_in_time : is_expired 9 approved ≡ false
unfolding is_expired
approved_in_time = refl

approved_tracked : lookup "i" remediating.agent.active_remediations ≡ some remediation
unfolding lookup
approved_tracked = refl

approved_status : get_or "status" null approved.payload ≡ str "approved"
unfolding get
approved_status = refl

deliver-unfinished_example :
    (v : World Remediator) × (deliver 9
        (handle_safety_decision outside (utc_now imported 9))
        approved
        remediating
      ≡ (naked, v))
    × (v.bus.outbox ≡ remediating.bus.outbox)
    × (lookup "i" v.agent.active_remediations ≡ some remediation)
    × (handle_safety_decision outside (utc_now imported 9) approved v
        ≡ carry_out outside (utc_now imported 9) approved remediation v)
deliver-unfinished_example =
    deliver-unfinished outside 9 approved remediation remediating approved_in_time approved_tracked
      approved_status

-- ===== src/Orchestrator/Timeline.antt =====
-- agents/orchestrator/src/timeline_builder.py. Times are microseconds, durations too.
pub mod Durations
use dev_ops_agent_swarm.Base.{
  ℕ, suc, ◌+◌, String, Bool, true, false, List, [], ◌∷◌, ◌++◌, Option, none, some, length, filter,
  Dict, lookup, insert, ◌==◌, ◌||◌,
}
use dev_ops_agent_swarm.Base.Int.{ℤ, pos, sub_ℕ, ◌+ℤ◌}
use dev_ops_agent_swarm.Base.Value.{Value, Fields}

-- `timestamp` is what `_parse_dt` makes of the field: `none` if it is missing or no date.
pub record Event : Type 0 where
  pub event_type : String
  pub agent : String
  pub summary : Value
  pub details : Fields
  pub timestamp : Option ℕ

unfoldable pub add_event : ℕ → List Event → String → String → Value → Fields → List Event
add_event now timeline event_type agent summary details =
    timeline
    ++ record {
      event_type = event_type;
      agent = agent;
      summary = summary;
      details = details;
      timestamp = some now;
    }
      ∷ []

-- What is stored of a `timeline` that was changed in place and assigned to its JSON column again.
-- SQLAlchemy compares the assigned list with the loaded one, which is the same object, and writes
-- nothing; for an empty one `incident.timeline or []` is a new list, which it writes.
unfoldable pub saved_timeline : List Event → List Event → List Event
saved_timeline [] changed = changed
saved_timeline (e ∷ es) changed = e ∷ es

-- `state_durations.get(state, 0)`
abbrev pub duration_of : Option ℤ → ℤ
duration_of none = pos 0
duration_of (some d) = d

-- one round of the loop over neighbours, where both timestamps parse
abbrev pub spend : String → Option ℕ → Option ℕ → Dict ℤ → Dict ℤ
spend state (some t1) (some t2) d = insert state (duration_of (lookup state d) +ℤ sub_ℕ t2 t1) d
spend state _ _ d = d

-- the loop `for i, event in enumerate(timeline)`
unfoldable pub state_durations : List Event → Dict ℤ → Dict ℤ
state_durations [] d = d
state_durations (e ∷ []) d = d
state_durations (e ∷ f ∷ rest) d =
    state_durations (f ∷ rest) (spend e.event_type e.timestamp f.timestamp d)

abbrev pub is_decision : Event → Bool
is_decision e =
    e.event_type == "safety_approved"
    || e.event_type == "safety_rejected"
    || e.event_type == "escalated"

-- what `generate_postmortem` reads of the incident, dates parsed
pub record Case : Type 0 where
  pub incident_id : String
  pub severity : Value
  pub status : String
  pub created_at : Option ℕ
  pub resolved_at : Option ℕ
  pub timeline : List Event
  pub root_cause_category : Value
  pub root_cause_service : Value
  pub resolution_summary : Value

pub record Postmortem : Type 0 where
  pub incident_id : String
  pub severity : Value
  pub status : String
  pub duration_seconds : Option ℤ
  pub state_durations : Dict ℤ
  pub key_decisions : List Event
  pub total_events : ℕ
  pub root_cause : Value
  pub root_cause_service : Value
  pub resolution_summary : Value

abbrev pub duration : Option ℕ → Option ℕ → Option ℤ
duration (some start) (some stop) = some (sub_ℕ stop start)
duration _ _ = none

unfoldable pub generate_postmortem : Case → Postmortem
generate_postmortem c = record {
  incident_id = c.incident_id;
  severity = c.severity;
  status = c.status;
  duration_seconds = duration c.created_at c.resolved_at;
  state_durations = state_durations c.timeline [];
  key_decisions = filter is_decision c.timeline;
  total_events = length c.timeline;
  root_cause = c.root_cause_category;
  root_cause_service = c.root_cause_service;
  resolution_summary = c.resolution_summary;
}

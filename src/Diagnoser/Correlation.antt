-- ===== src/Diagnoser/Correlation.antt =====
-- `CorrelationEngine` (agents/diagnoser/src/correlation_engine.py), on the tables of
-- shared/db/models.py. `lower` is `str.lower`. The columns `escalation_reason` and `category` are not
-- kept.
pub mod Severity
use dev_ops_agent_swarm.Base.{
  ℕ, ◌+◌, ◌*◌, String, Bool, true, false, List, [], ◌∷◌, ◌++◌, Option, none, some, Dict, insert,
  ltb, leb, ◌==◌, ◌&&◌, ◌||◌, if◌then◌else◌,
}
use dev_ops_agent_swarm.Base.Result.{Result, ok, raise, ◌>>=◌}
use dev_ops_agent_swarm.Base.Value.{Value, Fields, str, null, get_or}
use dev_ops_agent_swarm.Diagnoser.Rubric.{lowered}
use dev_ops_agent_swarm.Messaging.Message.{second}
use dev_ops_agent_swarm.Orchestrator.State.{Incident, Anomaly}

pub record Tables : Type 0 where
  pub incidents : Dict Incident
  pub anomalies : List Anomaly

-- `mapping.get(severity, 1)`
unfoldable pub mapped : String → ℕ
mapped severity =
    if severity == "critical"
    then 3
    else if severity == "high"
    then 2
    else if severity == "medium"
    then 1
    else if severity == "low"
    then 0
    else 1

-- the row of a new incident
unfoldable pub initial_row : String → ℕ → Incident
initial_row id now = record {
  id = id;
  status = "detecting";
  severity = str "medium";
  created_at = now;
  updated_at = now;
  state_entered_at = now;
  resolved_at = none;
  diagnosis = none;
  diagnosis_confidence = null;
  root_cause_category = null;
  root_cause_service = null;
  remediation_actions = [];
  auto_resolved = false;
  resolution_summary = null;
  timeline = [];
  postmortem = none;
}

-- the `where` of the query, for the default window of five minutes
abbrev pub is_active : ℕ → Incident → Bool
is_active now inc =
    (inc.status == "detecting" || inc.status == "diagnosing")
    && leb now (inc.updated_at + 5 * 60 * second)

abbrev pub newer_of : Incident → Option Incident → Incident
newer_of inc none = inc
newer_of inc (some other) = if ltb inc.updated_at other.updated_at then other else inc

-- the first row of the query: the active incident that was updated last. Of rows with one time, which
-- the query leaves in any order, it is the first of the table.
unfoldable pub latest : ℕ → Dict Incident → Option Incident
latest now [] = none
latest now ((_, inc) ∷ rest) =
    let later = latest now rest in if is_active now inc then some (newer_of inc later) else later

abbrev pub found_or_created :
    String → ℕ → Dict Incident → Option Incident → Incident × Bool × Dict Incident
found_or_created id now incidents (some inc) = (inc, false, incidents)
found_or_created id now incidents none =
    let inc = initial_row id now in (inc, true, insert id inc incidents)

-- `_find_or_create_incident`; `id` is the `uuid4` of a new row
unfoldable pub find_or_create_incident :
    String → ℕ → Dict Incident → Incident × Bool × Dict Incident
find_or_create_incident id now incidents = found_or_created id now incidents (latest now incidents)

-- the row that `correlate` adds
unfoldable pub attached : ℕ → String → Fields → Anomaly
attached now id payload = record {
  incident_id = id;
  metric = get_or "metric" (str "unknown") payload;
  service = get_or "service" (str "unknown") payload;
  severity = get_or "severity" (str "medium") payload;
  description = get_or "description" null payload;
  value = get_or "value" null payload;
  threshold = get_or "threshold" null payload;
  detected_at = now;
  raw_payload = payload;
}

module _ (lower : String → String) where
  unfoldable pub severity_val : Value → Result ℕ
  severity_val severity = do text ← lowered lower severity; ok (mapped text)

  -- the upgrade of a severity, which an update of the row stamps
  unfoldable pub upgraded : ℕ → Value → Incident → Result Incident
  upgraded now severity inc = do
    reported ← severity_val severity
    known ← severity_val inc.severity
    ok (if ltb known reported then record inc { severity = severity; updated_at = now } else inc)

  -- `correlate`: the incident, whether it was created, and the tables that are committed
  unfoldable pub correlate : String → ℕ → Fields → Tables → Result ((Incident × Bool) × Tables)
  correlate id now payload t =
      let (inc, created, incidents) = find_or_create_incident id now t.incidents in
      do
        row ← upgraded now (get_or "severity" (str "medium") payload) inc
        ok (
          (row, created),
          record {
            incidents = insert row.id row incidents;
            anomalies = t.anomalies ++ attached now row.id payload ∷ [];
          },
        )
